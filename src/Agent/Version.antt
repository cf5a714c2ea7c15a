-- ===== src/Agent/Version.antt =====
-- `AgentVersion` (app/domain/entities/agent.py). A model policy is the dictionary's entries; one of
-- another type has no counterpart here.
use aiagent_x.Common.{
  ℕ, String, Bool, false, Option, none, some, M, Result, ok, raise, raise_if, modify, ◌>>◌, not,
  ◌||◌, ◌==◌, if◌then◌else◌,
}
use aiagent_x.Common.Int.{ℤ, pos, pos_part, is_nonpos}
use aiagent_x.Common.Text.{is_empty, is_blank, str_eq}
use aiagent_x.Common.Value.{Fields, end, field, text, int, float}

pub data AgentStatus : Type 0 where
  draft published archived : AgentStatus

abbrev pub rank : AgentStatus → ℕ
rank draft = 0
rank published = 1
rank archived = 2

abbrev pub status_eq : AgentStatus → AgentStatus → Bool
status_eq a b = rank a == rank b

pub data AgentError : Type 0 where
  empty_name name_too_long : AgentError
  version_not_positive empty_system_prompt empty_memory_mode not_mutable : AgentError
  version_exists version_not_found : ℤ → AgentError
  missing_field : String → AgentError

pub record AgentVersion : Type 0 where
  pub id : ℕ
  pub updated_at : ℕ
  pub agent_id : ℕ
  pub tenant_id : ℕ
  pub version : ℕ
  pub system_prompt : String
  pub model_policy : Fields
  pub memory_mode : String
  pub status : AgentStatus

abbrev pub has_field : String → Fields → Bool
has_field k end = false
has_field k (field j v fs) = str_eq j k || has_field k fs

-- `_get_default_model_policy`.
abbrev pub default_model_policy : Fields
default_model_policy = field "provider" (text "fake") (
    field "model" (text "gpt-4o")
      (field "temperature" (float "0.7") (field "max_tokens" (int (pos 4096)) end)))

-- `_validate_model_policy`: an empty policy becomes the default one.
unfoldable pub validate_model_policy : Fields → Result AgentError Fields
validate_model_policy end = ok default_model_policy
validate_model_policy (field k v fs) =
    if not (has_field "provider" (field k v fs))
    then raise (missing_field "provider")
    else if not (has_field "model" (field k v fs))
    then raise (missing_field "model")
    else ok (field k v fs)

pub with_policy :
    (id now agent_id tenant_id version : ℕ)
    → (system_prompt memory_mode : String) → Result AgentError Fields
    → Result AgentError AgentVersion
with_policy id now agent_id tenant_id version system_prompt memory_mode (raise e) = raise e
with_policy id now agent_id tenant_id version system_prompt memory_mode (ok policy) = ok (record {
  id = id;
  updated_at = now;
  agent_id = agent_id;
  tenant_id = tenant_id;
  version = version;
  system_prompt = system_prompt;
  model_policy = policy;
  memory_mode = memory_mode;
  status = draft;
})

-- `AgentVersion(…)` with `__post_init__`, as a draft.
unfoldable pub create :
    (id now agent_id tenant_id : ℕ)
    → ℤ
    → (system_prompt : String) → Fields
    → (memory_mode : String) → Result AgentError AgentVersion
unfolding with_policy
create id now agent_id tenant_id version system_prompt model_policy memory_mode =
    if is_nonpos version
    then raise version_not_positive
    else if is_empty system_prompt || is_blank system_prompt
    then raise empty_system_prompt
    else if is_empty memory_mode
    then raise empty_memory_mode
    else with_policy id now agent_id tenant_id (pos_part version) system_prompt memory_mode
        (validate_model_policy model_policy)

abbrev pub is_published : AgentVersion → Bool
is_published v = status_eq v.status published

abbrev pub is_mutable : AgentVersion → Bool
is_mutable v = status_eq v.status draft

set_prompt : Option String → M AgentVersion AgentError (Unit {0})
set_prompt none v = (ok tt, v)
set_prompt (some s) v =
    if is_blank s then (raise empty_system_prompt, v) else (ok tt, record v { system_prompt = s })

set_policy : Option Fields → M AgentVersion AgentError (Unit {0})
set_policy none v = (ok tt, v)
set_policy (some p) v = (ok tt, record v { model_policy = p })

set_mode : Option String → M AgentVersion AgentError (Unit {0})
set_mode none v = (ok tt, v)
set_mode (some s) v =
    if is_empty s then (raise empty_memory_mode, v) else (ok tt, record v { memory_mode = s })

-- `update`: each given field is checked and assigned in turn.
unfoldable pub update :
    ℕ → Option String → Option Fields → Option String → M AgentVersion AgentError (Unit {0})
unfolding set_prompt set_policy set_mode
update now system_prompt model_policy memory_mode v =
    (do
      raise_if (not (is_mutable v)) not_mutable
      set_prompt system_prompt
      set_policy model_policy
      set_mode memory_mode
      modify (λ u. record u { updated_at = now }))
      v
