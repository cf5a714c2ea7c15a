-- ===== src/Approval/Request.antt =====
-- app/domain/entities/approval_request.py. Each argument `now…` is one reading of the clock.
use aiagent_x.Common.{
  ℕ, ◌+◌, ◌*◌, String, Bool, false, Option, none, some, List, [], ◌∷◌, ◌++◌, M, Result, ok, raise,
  modify, raise_if, ◌>>◌, not, any, ltb, ◌==◌, ◌||◌, if◌then◌else◌,
}
use aiagent_x.Common.Text.{is_empty, is_blank}
use aiagent_x.Common.Value.{Value}

pub data ApprovalState : Type 0 where
  pending approved denied expired cancelled : ApprovalState

abbrev pub rank : ApprovalState → ℕ
rank pending = 0
rank approved = 1
rank denied = 2
rank expired = 3
rank cancelled = 4

abbrev pub state_eq : ApprovalState → ApprovalState → Bool
state_eq a b = rank a == rank b

pub data ApprovalType : Type 0 where
  tool_execution sensitive_action budget_exceed policy_violation : ApprovalType

pub data ApprovalEvent : Type 0 where
  granted : (approval_id run_id : ℕ) → String → Option Value → ApprovalEvent
  denied_by : (approval_id run_id : ℕ) → String → String → ApprovalEvent
  withdrawn : (approval_id run_id : ℕ) → String → ApprovalEvent

pub data ApprovalError : Type 0 where
  empty_tool_name empty_action : ApprovalError
  cannot_approve cannot_deny : ApprovalState → ApprovalError
  request_expired : ApprovalError
  not_found no_row duplicate_id : ApprovalError

pub record ApprovalRequest : Type 0 where
  pub id : ℕ
  pub updated_at : ℕ
  pub events : List ApprovalEvent
  pub run_id : ℕ
  pub step_sequence : ℕ
  pub approval_type : ApprovalType
  pub state : ApprovalState
  pub tool_name : String
  pub action : String
  pub resource : Option String
  pub input_data : Value
  pub policy_reason : String
  pub requested_by : String
  pub requested_at : ℕ
  pub approved_by : Option String
  pub approved_at : Option ℕ
  pub denial_reason : Option String
  pub expires_at : Option ℕ
  pub ttl_seconds : ℕ
  pub response_data : Option Value

-- The fields of a new request, those of the answer at their defaults; `now₂` is read for the
-- expiry.
abbrev pub fresh :
    (id now₁ now₂ run_id step_sequence : ℕ)
    → ApprovalType
    → (tool_name action : String) → Option String
    → Value
    → (policy_reason requested_by : String) → (ttl_seconds : ℕ) → ApprovalRequest
fresh id now₁ now₂ run_id step_sequence kind tool_name action resource input policy_reason by ttl =
    record {
      id = id;
      updated_at = now₁;
      events = [];
      run_id = run_id;
      step_sequence = step_sequence;
      approval_type = kind;
      state = pending;
      tool_name = tool_name;
      action = action;
      resource = resource;
      input_data = input;
      policy_reason = policy_reason;
      requested_by = by;
      requested_at = now₁;
      approved_by = none;
      approved_at = none;
      denial_reason = none;
      expires_at = some (now₂ + ttl * 1000000);
      ttl_seconds = ttl;
      response_data = none;
    }

-- `ApprovalRequest(…)` with `__post_init__`.
unfoldable pub create :
    (id now₁ now₂ run_id step_sequence : ℕ)
    → ApprovalType
    → (tool_name action : String) → Option String
    → Value
    → (policy_reason requested_by : String) → (ttl_seconds : ℕ)
    → Result ApprovalError ApprovalRequest
create id now₁ now₂ run_id step_sequence kind tool_name action resource input policy_reason by ttl =
    if is_empty tool_name || is_blank tool_name
    then raise empty_tool_name
    else if is_empty action || is_blank action
    then raise empty_action
    else ok (
        fresh id now₁ now₂ run_id step_sequence kind tool_name action resource input policy_reason
          by ttl)

unfoldable pub is_expired : ℕ → ApprovalRequest → Bool
is_expired now q = elim q.expires_at [ none ↦ false | some t ↦ ltb t now ]

abbrev add_event : ApprovalEvent → ApprovalRequest → ApprovalRequest
add_event e q = record q { events = q.events ++ e ∷ [] }

unfoldable pub approve :
    (now₁ now₂ now₃ : ℕ) → String → Option Value → M ApprovalRequest ApprovalError (Unit {0})
approve now₁ now₂ now₃ by response q =
    (do
      raise_if (not (state_eq q.state pending)) (cannot_approve q.state)
      raise_if (is_expired now₁ q) request_expired
      modify (λ p. record p {
        state = approved;
        approved_by = some by;
        approved_at = some now₂;
        response_data = response;
        updated_at = now₃;
      })
      modify (add_event (granted q.id q.run_id by response)))
      q

unfoldable pub deny :
    (now₁ now₂ : ℕ) → (by reason : String) → M ApprovalRequest ApprovalError (Unit {0})
deny now₁ now₂ by reason q =
    (do
      raise_if (not (state_eq q.state pending)) (cannot_deny q.state)
      modify (λ p. record p {
        state = denied;
        approved_by = some by;
        approved_at = some now₁;
        denial_reason = some reason;
        updated_at = now₂;
      })
      modify (add_event (denied_by q.id q.run_id by reason)))
      q

unfoldable pub cancel : ℕ → String → ApprovalRequest → ApprovalRequest
cancel now reason q =
    if not (any (state_eq q.state) (pending ∷ approved ∷ []))
    then q
    else add_event (withdrawn q.id q.run_id reason)
        (record q { state = cancelled; denial_reason = some reason; updated_at = now })
