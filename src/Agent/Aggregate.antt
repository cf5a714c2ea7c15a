-- ===== src/Agent/Aggregate.antt =====
-- `Agent` (app/domain/entities/agent.py). The aggregate's methods and its callers share the version
-- objects: an `update` of a version through a reference changes the aggregate's.
use aiagent_x.Common.{
  ℕ, String, Bool, Option, none, some, List, [], ◌∷◌, ◌++◌, map, M, Result, ok, raise, raise_if,
  modify, ◌>>◌, ◌>>=◌, pure, any, find, ltb, not, ◌||◌, ◌&&◌, ◌==◌, if◌then◌else◌, suc,
}
use aiagent_x.Common.Int.{ℤ, pos_part, is_neg, is_nonpos}
use aiagent_x.Common.Text.{is_empty, is_blank}
use aiagent_x.Common.Value.{Fields}
use aiagent_x.Agent.Version
use aiagent_x.Agent.Version.{
  AgentVersion, AgentError, published, archived, is_published, empty_name, name_too_long,
  version_not_positive, version_exists, version_not_found, empty_system_prompt,
}

pub data AgentEvent : Type 0 where
  version_created :
      (tenant_id agent_id version : ℕ)
      → (system_prompt : String) → Fields
      → (memory_mode : String) → AgentEvent
  agent_published : (tenant_id agent_id version : ℕ) → AgentEvent
  agent_deleted : (tenant_id agent_id : ℕ) → AgentEvent

pub record Agent : Type 0 where
  pub id : ℕ
  pub updated_at : ℕ
  pub events : List AgentEvent
  pub tenant_id : ℕ
  pub name : String
  pub description : Option String
  pub versions : List AgentVersion

abbrev pub count_chars : String → ℕ
count_chars String.[] = 0
count_chars (String.◌∷◌ c s) = suc (count_chars s)

unfoldable pub create : (id now tenant_id : ℕ) → String → Option String → Result AgentError Agent
create id now tenant_id name description =
    if is_empty name || is_blank name
    then raise empty_name
    else if ltb 200 (count_chars name)
    then raise name_too_long
    else ok (record {
      id = id;
      updated_at = now;
      events = [];
      tenant_id = tenant_id;
      name = name;
      description = description;
      versions = [];
    })

abbrev pub has_version : ℤ → AgentVersion → Bool
has_version n v = not (is_neg n) && v.version == pos_part n

abbrev lift : Result AgentError AgentVersion → M Agent AgentError AgentVersion
lift result a = (result, a)

abbrev announce : ℕ → AgentEvent → Agent → Agent
announce now e a = record a { updated_at = now; events = a.events ++ e ∷ [] }

unfoldable pub create_version :
    (id now₁ now₂ : ℕ)
    → ℤ
    → (system_prompt : String) → Fields
    → (memory_mode : String) → M Agent AgentError AgentVersion
create_version id now₁ now₂ version system_prompt model_policy memory_mode a =
    (do
      raise_if (is_nonpos version) version_not_positive
      raise_if (any (has_version version) a.versions) (version_exists version)
      raise_if (is_empty system_prompt || is_blank system_prompt) empty_system_prompt
      v ←
          lift
            (Version.create id now₁ a.id a.tenant_id version system_prompt model_policy memory_mode)
      modify (λ b. record b { versions = b.versions ++ v ∷ [] })
      modify (
          announce now₂ (
            version_created a.tenant_id a.id (pos_part version) system_prompt model_policy
              memory_mode))
      pure v)
      a

unfoldable pub get_version : ℤ → Agent → Option AgentVersion
get_version version a = find (has_version version) a.versions

-- `max(…, key=version)`: the first of the greatest.
unfoldable pub latest : List AgentVersion → Option AgentVersion
latest [] = none
latest (v ∷ versions) = elim (latest versions) [
  | none ↦ some v
  | some u ↦ if ltb v.version u.version then some u else some v
]

unfoldable pub get_latest_version : Agent → Option AgentVersion
unfolding latest
get_latest_version a = latest a.versions

unfoldable pub get_published_version : Agent → Option AgentVersion
get_published_version a = find is_published a.versions

-- The loop that archives what is published.
unfoldable pub archive : ℕ → AgentVersion → AgentVersion
archive now v = if is_published v then record v { status = archived; updated_at = now } else v

-- A change of the object that `get_version` returned.
unfoldable pub change_version :
    ℤ → (AgentVersion → AgentVersion) → List AgentVersion → List AgentVersion
change_version n f [] = []
change_version n f (v ∷ versions) =
    if has_version n v then f v ∷ versions else v ∷ change_version n f versions

abbrev pub publish : ℕ → AgentVersion → AgentVersion
publish now v = record v { status = published; updated_at = now }

unfoldable pub publish_version : (now₁ now₂ now₃ : ℕ) → ℤ → M Agent AgentError (Unit {0})
unfolding archive change_version
publish_version now₁ now₂ now₃ version a = elim (find (has_version version) a.versions) [
  | none ↦ (raise (version_not_found version), a)
  | some v ↦ if is_published v then (ok tt, a) else (
    ok tt,
    announce now₃ (agent_published a.tenant_id a.id (pos_part version)) (record a {
      versions = change_version version (publish now₂) (map (archive now₁) a.versions);
    }),
  )
]

unfoldable pub soft_delete : ℕ → Agent → Agent
soft_delete now a = announce now (agent_deleted a.tenant_id a.id) a

-- `agent.get_version(n).update(…)`.
unfoldable pub update_version :
    ℕ → ℤ → Option String → Option Fields → Option String → M Agent AgentError (Unit {0})
unfolding change_version
update_version now n system_prompt model_policy memory_mode a =
    elim (find (has_version n) a.versions) [
      | none ↦ (raise (version_not_found n), a)
      | some v ↦
          let (result, v') = Version.update now system_prompt model_policy memory_mode v in
          (result, record a { versions = change_version n (λ _. v') a.versions })
    ]

-- `AggregateRoot.collect_events`: the pending events, and the agent with none.
unfoldable pub collect_events : Agent → List AgentEvent × Agent
collect_events a = (a.events, record a { events = [] })
