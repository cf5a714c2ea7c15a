-- ===== src/Agent/Frozen.antt =====
-- The content of versions that have left DRAFT (app/domain/entities/agent.py).
use aiagent_x.Common.{
  ℕ, ◌≡◌, refl, String, Bool, true, false, Option, none, some, List, [], ◌∷◌, ◌++◌, map, arith,
  ◌==◌, find, if◌then◌else◌, Option-cases, Bool-cases, Result-cases, inl, inr,
}
use aiagent_x.Common.Int.{ℤ, pos, negsuc}
use aiagent_x.Common.Value.{Fields}
use aiagent_x.Agent.Version
use aiagent_x.Agent.Version.{AgentVersion, is_published, is_mutable}
use aiagent_x.Agent.Aggregate
use aiagent_x.Agent.Aggregate.{Agent, has_version, archive, publish, change_version}
use aiagent_x.Agent.Published.{
  collect_events, Call, create_version, publish_version, update_version, soft_delete, apply,
  apply_all, update-status,
}

-- What of a version must not change.
pub record SameContent (v u : AgentVersion) : Type 0 where
  pub id : u.id ≡ v.id
  pub version : u.version ≡ v.version
  pub system_prompt : u.system_prompt ≡ v.system_prompt
  pub model_policy : u.model_policy ≡ v.model_policy
  pub memory_mode : u.memory_mode ≡ v.memory_mode

find-append :
    (n : ℤ) (versions : List AgentVersion) (v u : AgentVersion)
    → find (has_version n) versions ≡ some v
    → find (has_version n) (versions ++ u ∷ []) ≡ some v
find-append n [] v u h = ground arith
find-append n (w ∷ versions) v u h = ground (arith, find-append n versions v u)

find-archive :
    (n : ℤ) (now : ℕ) (versions : List AgentVersion) (v : AgentVersion)
    → find (has_version n) versions ≡ some v
    → find (has_version n) (map (archive now) versions) ≡ some (archive now v)
unfolding archive
find-archive n now [] v h = ground arith
find-archive n now (w ∷ versions) v h = ground (arith, find-archive n now versions v)

abbrev same_number : ℤ → ℤ → Bool
same_number (pos a) (pos b) = a == b
same_number _ _ = false

find-replace :
    (n m : ℤ) (u w v : AgentVersion) (versions : List AgentVersion)
    → find (has_version m) versions ≡ some w
    → u.version ≡ w.version
    → find (has_version n) versions ≡ some v
    → find (has_version n) (change_version m (λ _. u) versions)
      ≡ some (if same_number n m then u else v)
unfolding change_version
find-replace n m u w v [] g e h = ground arith
find-replace (negsuc n) m u w v (x ∷ versions) g e h =
    ground (arith, find-replace (negsuc n) m u w v versions)
find-replace (pos n) (negsuc m) u w v (x ∷ versions) g e h =
    ground (arith, find-replace (pos n) (negsuc m) u w v versions)
find-replace (pos n) (pos m) u w v (x ∷ versions) g e h =
    ground (arith, find-replace (pos n) (pos m) u w v versions)

change_version-const :
    (m : ℤ) (f : AgentVersion → AgentVersion) (w : AgentVersion) (versions : List AgentVersion)
    → find (has_version m) versions ≡ some w
    → change_version m f versions ≡ change_version m (λ _. f w) versions
unfolding change_version
change_version-const m f w [] g = refl
change_version-const m f w (x ∷ versions) g = ground (arith, change_version-const m f w versions)

find-same :
    (n m : ℤ) (v w : AgentVersion) (versions : List AgentVersion)
    → same_number n m ≡ true
    → find (has_version n) versions ≡ some v
    → find (has_version m) versions ≡ some w
    → w ≡ v
find-same (pos n) (pos m) v w versions s h g = ground arith
find-same (pos n) (negsuc m) v w versions s h g = cc
find-same (negsuc n) m v w versions s h g = cc

abbrev pub FrozenIn : ℤ → AgentVersion → List AgentVersion → Type 0
FrozenIn n v versions =
    (u : AgentVersion) × (find (has_version n) versions ≡ some u)
    × (is_mutable u ≡ false)
    × SameContent v u

publish-versions :
    (b c d : ℕ) (m : ℤ) (a : Agent) (w : AgentVersion)
    → find (has_version m) a.versions ≡ some w
    → (Aggregate.publish_version b c d m a).1.versions ≡ (
        if is_published w
        then a.versions
        else change_version m (λ _. publish c (archive b w)) (map (archive b) a.versions))
unfolding Aggregate.publish_version
publish-versions b c d m a w h = ground (
  arith,
  change_version-const m (publish c) (archive b w) (map (archive b) a.versions)
      (find-archive m b a.versions w h),
)

publish-missing :
    (b c d : ℕ) (m : ℤ) (a : Agent)
    → find (has_version m) a.versions ≡ none
    → (Aggregate.publish_version b c d m a).1 ≡ a
unfolding Aggregate.publish_version
publish-missing b c d m a h = ground arith

archive-frozen :
    (b : ℕ) (v u : AgentVersion)
    → is_mutable u ≡ false
    → SameContent v u
    → (is_mutable (archive b u) ≡ false) × SameContent v (archive b u)
unfolding archive
archive-frozen b v u k same = (ground arith, ground arith)

publish-frozen :
    (b c d : ℕ) (n m : ℤ) (a : Agent) (v : AgentVersion)
    → FrozenIn n v a.versions
    → FrozenIn n v (Aggregate.publish_version b c d m a).1.versions
publish-frozen b c d n m a v (u, h, k, same) =
    elim (Option-cases (find (has_version m) a.versions)) [
      | inl missing ↦ rw (publish-missing b c d m a missing) (u, h, k, same)
      | inr (w, found) ↦ elim (Bool-cases (is_published w)) [
        | inl already ↦ rw (publish-versions b c d m a w found, already) (u, h, k, same)
        | inr fresh ↦
            let (k', same') = archive-frozen b v u k same in
            let e =
              find-replace n m (publish c (archive b w)) (archive b w) (archive b u)
                (map (archive b) a.versions) (find-archive m b a.versions w found) refl
                (find-archive n b a.versions u h) in
            rw (publish-versions b c d m a w found, fresh)
              (elim (Bool-cases (same_number n m)) [
                | inl number ↦
                    let eq = find-same n m u w a.versions number h found in
                    (
                      publish c (archive b w),
                      rw number at e,
                      refl,
                      rw eq (record {
                        id = same'.id;
                        version = same'.version;
                        system_prompt = same'.system_prompt;
                        model_policy = same'.model_policy;
                        memory_mode = same'.memory_mode;
                      }),
                    )
                | inr other ↦ (archive b u, rw other at e, k', same')
              ])
      ]
    ]

update-versions :
    (b : ℕ) (m : ℤ) (s : Option String) (p : Option Fields) (q : Option String) (a : Agent)
    (w : AgentVersion)
    → find (has_version m) a.versions ≡ some w
    → (Aggregate.update_version b m s p q a).1.versions
      ≡ change_version m (λ _. (Version.update b s p q w).1) a.versions
unfolding Aggregate.update_version
update-versions b m s p q a w h = ground arith

update-missing :
    (b : ℕ) (m : ℤ) (s : Option String) (p : Option Fields) (q : Option String) (a : Agent)
    → find (has_version m) a.versions ≡ none
    → (Aggregate.update_version b m s p q a).1 ≡ a
unfolding Aggregate.update_version
update-missing b m s p q a h = ground arith

update_frozen :
    (b : ℕ) (s : Option String) (p : Option Fields) (q : Option String) (v : AgentVersion)
    → is_mutable v ≡ false
    → (Version.update b s p q v).1 ≡ v
unfolding Version.update
update_frozen b s p q v h = ground arith

update-frozen :
    (b : ℕ) (n m : ℤ) (s : Option String) (p : Option Fields) (q : Option String) (a : Agent)
    (v : AgentVersion)
    → FrozenIn n v a.versions
    → FrozenIn n v (Aggregate.update_version b m s p q a).1.versions
update-frozen b n m s p q a v (u, h, k, same) =
    elim (Option-cases (find (has_version m) a.versions)) [
      | inl missing ↦ rw (update-missing b m s p q a missing) (u, h, k, same)
      | inr (w, found) ↦
          let w' = (Version.update b s p q w).1 in
          let e = find-replace n m w' w u a.versions found (update-status b s p q w).1 h in
          rw (update-versions b m s p q a w found) (elim (Bool-cases (same_number n m)) [
            | inl number ↦
                let eq = find-same n m u w a.versions number h found in
                (u, ground (arith, e, update_frozen b s p q u k), k, same)
            | inr other ↦ (u, ground (arith, e), k, same)
          ])
    ]

create-frozen :
    (id b c : ℕ) (m : ℤ) (s : String) (p : Fields) (q : String) (n : ℤ) (a : Agent)
    (v : AgentVersion)
    → FrozenIn n v a.versions
    → FrozenIn n v (Aggregate.create_version id b c m s p q a).1.versions
unfolding Aggregate.create_version
create-frozen id b c m s p q n a v (u, h, k, same) =
    elim (Result-cases (Version.create id b a.id a.tenant_id m s p q)) [
      | inl (w, e) ↦ (u, ground (arith, find-append n a.versions u w h), k, same)
      | inr (x, e) ↦ (u, ground arith, k, same)
    ]

apply-frozen :
    (c : Call) (n : ℤ) (a : Agent) (v : AgentVersion)
    → FrozenIn n v a.versions
    → FrozenIn n v (apply c a).versions
unfolding apply
apply-frozen (create_version id b c m s p q) n a v h = create-frozen id b c m s p q n a v h
apply-frozen (publish_version b c d m) n a v h = publish-frozen b c d n m a v h
apply-frozen (update_version b m s p q) n a v h = update-frozen b n m s p q a v h
apply-frozen (soft_delete b) n a v h = unfold Aggregate.soft_delete in h
apply-frozen collect_events n a v h = unfold Aggregate.collect_events in h

apply_all-frozen :
    (calls : List Call) (n : ℤ) (a : Agent) (v : AgentVersion)
    → FrozenIn n v a.versions
    → FrozenIn n v (apply_all calls a).versions
unfolding apply_all
apply_all-frozen [] n a v h = h
apply_all-frozen (c ∷ calls) n a v h =
    apply_all-frozen calls n (apply c a) v (apply-frozen c n a v h)

-- A version that is not a draft is in the agent for ever, by its number, is never a draft again,
-- and keeps its prompt, model policy and memory mode, whatever calls follow.
pub frozen :
    (calls : List Call) (n : ℤ) (a : Agent) (v : AgentVersion)
    → Aggregate.get_version n a ≡ some v
    → is_mutable v ≡ false
    → FrozenIn n v (apply_all calls a).versions
unfolding Aggregate.get_version
frozen calls n a v h k = apply_all-frozen calls n a v (v, h, k, ground arith)
