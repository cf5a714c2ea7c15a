-- ===== src/Agent/Published.antt =====
-- The published versions of an agent (`Agent.publish_version`, app/domain/entities/agent.py).
use aiagent_x.Common.{
  ℕ, ◌+◌, ◌≤◌, ◌≡◌, ◌⊎◌, inl, inr, refl, String, true, Option, none, some, List, [], ◌∷◌, ◌++◌, map,
  arith, ok, raise, find, if◌then◌else◌, Option-cases, Bool-cases, Result-cases,
}
use aiagent_x.Common.Int.{ℤ}
use aiagent_x.Common.Value.{Fields}
use aiagent_x.Agent.Version
use aiagent_x.Agent.Version.{AgentVersion, AgentStatus, draft, is_published, version_not_found}
use aiagent_x.Agent.Aggregate
use aiagent_x.Agent.Aggregate.{
  Agent, has_version, archive, publish, change_version, get_published_version,
}

pub data Call : Type 0 where
  create_version :
      (id now₁ now₂ : ℕ) → ℤ → (system_prompt : String) → Fields → (memory_mode : String) → Call
  publish_version : (now₁ now₂ now₃ : ℕ) → ℤ → Call
  update_version : ℕ → ℤ → Option String → Option Fields → Option String → Call
  soft_delete : ℕ → Call
  collect_events : Call

unfoldable pub apply : Call → Agent → Agent
apply (create_version id now₁ now₂ n prompt policy mode) a =
    (Aggregate.create_version id now₁ now₂ n prompt policy mode a).1
apply (publish_version now₁ now₂ now₃ n) a = (Aggregate.publish_version now₁ now₂ now₃ n a).1
apply (update_version now n prompt policy mode) a =
    (Aggregate.update_version now n prompt policy mode a).1
apply (soft_delete now) a = Aggregate.soft_delete now a
apply collect_events a = (Aggregate.collect_events a).1

unfoldable pub apply_all : List Call → Agent → Agent
apply_all [] a = a
apply_all (c ∷ calls) a = apply_all calls (apply c a)

abbrev pub published_count : List AgentVersion → ℕ
published_count [] = 0
published_count (v ∷ versions) = (if is_published v then 1 else 0) + published_count versions

published_count-append :
    (versions : List AgentVersion) (v : AgentVersion)
    → published_count (versions ++ v ∷ [])
      ≡ published_count versions + (if is_published v then 1 else 0)
published_count-append [] v = omega arith
published_count-append (u ∷ versions) v = omega (arith, published_count-append versions v)

published_count-archive :
    (now : ℕ) (versions : List AgentVersion) → published_count (map (archive now) versions) ≡ 0
unfolding archive
published_count-archive now [] = refl
published_count-archive now (v ∷ versions) = ground (arith, published_count-archive now versions)

published_count-publish :
    (n : ℤ) (now : ℕ) (versions : List AgentVersion)
    → published_count (change_version n (publish now) versions) ≤ published_count versions + 1
unfolding change_version
published_count-publish n now [] = omega arith
published_count-publish n now (v ∷ versions) =
    ground (arith, published_count-publish n now versions)

-- `update` does not touch the status, or the number.
pub update-status :
    (now : ℕ) (p : Option String) (q : Option Fields) (m : Option String) (v : AgentVersion)
    → ((Version.update now p q m v).1.status ≡ v.status)
      × ((Version.update now p q m v).1.version ≡ v.version)
unfolding Version.update
update-status now p q m v = ground arith

published_count-replace :
    (n : ℤ) (v u : AgentVersion) (versions : List AgentVersion)
    → find (has_version n) versions ≡ some v
    → u.status ≡ v.status
    → published_count (change_version n (λ _. u) versions) ≡ published_count versions
unfolding change_version
published_count-replace n v u [] f e = refl
published_count-replace n v u (w ∷ versions) f e =
    ground (arith, published_count-replace n v u versions)

created-draft :
    (id now t g : ℕ) (n : ℤ) (s : String) (p : Fields) (m : String) {v : AgentVersion}
    → Version.create id now t g n s p m ≡ ok v
    → v.status ≡ draft
unfolding Version.create
created-draft id now t g n s p m h = ground arith

apply-published_count :
    (c : Call) (a : Agent)
    → published_count a.versions ≤ 1
    → published_count (apply c a).versions ≤ 1
unfolding apply
apply-published_count (create_version id b c n s p m) a h =
    unfold Aggregate.create_version in
    elim (Result-cases (Version.create id b a.id a.tenant_id n s p m)) [
      | inl (v, e) ↦ ground (
        arith,
        created-draft id b a.id a.tenant_id n s p m e,
        published_count-append a.versions v,
      )
      | inr (x, e) ↦ ground arith
    ]
apply-published_count (publish_version b c d n) a h =
    unfold Aggregate.publish_version in
    ground (
      arith,
      published_count-archive b a.versions,
      published_count-publish n c (map (archive b) a.versions),
    )
apply-published_count (update_version b n s p m) a h =
    unfold Aggregate.update_version in
    elim (Option-cases (find (has_version n) a.versions)) [
      | inl missing ↦ ground arith
      | inr (v, found) ↦ ground (
        arith,
        update-status b s p m v,
        published_count-replace n v (Version.update b s p m v).1 a.versions found,
      )
    ]
apply-published_count (soft_delete b) a h = unfold Aggregate.soft_delete in h
apply-published_count collect_events a h = unfold Aggregate.collect_events in h

-- An agent that starts with at most one published version has at most one after any calls, those
-- that raise included.
pub apply_all-published_count :
    (calls : List Call) (a : Agent)
    → published_count a.versions ≤ 1
    → published_count (apply_all calls a).versions ≤ 1
unfolding apply_all
apply_all-published_count [] a h = h
apply_all-published_count (c ∷ calls) a h =
    apply_all-published_count calls (apply c a) (apply-published_count c a h)

published_count-find :
    (n : ℤ) (v : AgentVersion) (versions : List AgentVersion)
    → find (has_version n) versions ≡ some v
    → is_published v ≡ true
    → 1 ≤ published_count versions
published_count-find n v [] f p = ground arith
published_count-find n v (u ∷ versions) f p = ground (arith, published_count-find n v versions)

find-only_published :
    (n : ℤ) (v : AgentVersion) (versions : List AgentVersion)
    → find (has_version n) versions ≡ some v
    → is_published v ≡ true
    → published_count versions ≤ 1
    → find is_published versions ≡ some v
find-only_published n v [] f p c = f
find-only_published n v (u ∷ versions) f p c =
    ground (arith, find-only_published n v versions, published_count-find n v versions)

find-published :
    (n : ℤ) (now₁ now₂ : ℕ) (v : AgentVersion) (versions : List AgentVersion)
    → find (has_version n) versions ≡ some v
    → (u : AgentVersion) × (find is_published
          (change_version n (publish now₂) (map (archive now₁) versions))
        ≡ some u)
      × (u.version ≡ v.version)
unfolding change_version archive
find-published n now₁ now₂ v [] f = cc
find-published n now₁ now₂ v (w ∷ versions) f = elim (Bool-cases (has_version n w)) [
  | inl here ↦ (publish now₂ (archive now₁ w), ground arith, ground arith)
  | inr there ↦
      let (u, e, k) = find-published n now₁ now₂ v versions (ground arith) in (u, ground arith, k)
]

-- In an agent with at most one published version: to publish a version that it has succeeds, and
-- the published version is then one of that number; to publish one that it has not raises and
-- changes nothing.
pub publish_version-get_published :
    (now₁ now₂ now₃ : ℕ) (n : ℤ) (a : Agent)
    → published_count a.versions ≤ 1
    → ((v u : AgentVersion) × (Aggregate.get_version n a ≡ some v)
        × ((Aggregate.publish_version now₁ now₂ now₃ n a).0 ≡ ok tt)
        × (get_published_version (Aggregate.publish_version now₁ now₂ now₃ n a).1 ≡ some u)
        × (u.version ≡ v.version))
      ⊎ ((Aggregate.get_version n a ≡ none)
          × (Aggregate.publish_version now₁ now₂ now₃ n a ≡ (raise (version_not_found n), a)))
unfolding Aggregate.publish_version get_published_version Aggregate.get_version
publish_version-get_published now₁ now₂ now₃ n a h =
    elim (Option-cases (find (has_version n) a.versions)) [
      | inl missing ↦ inr (missing, rw (missing, Aggregate.publish_version))
      | inr (v, found) ↦ elim (Bool-cases (is_published v)) [
        | inl already ↦ inl (
          v,
          v,
          found,
          ground arith,
          ground (arith, find-only_published n v a.versions found already h),
          refl,
        )
        | inr fresh ↦
            let (u, e, k) = find-published n now₁ now₂ v a.versions found in
            inl (v, u, found, ground arith, ground (arith, e), k)
      ]
    ]
