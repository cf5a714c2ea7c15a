-- ===== src/Approval/Coordinator.antt =====
-- `ApprovalCoordinator` (app/domain/services/approval_coordinator.py) over the table, with the
-- `cancel` endpoint of app/api/v1/approvals/router.py. The notification service is not part of the
-- repository: the world keeps what it is asked to send, and its calls are taken to return.
use aiagent_x.Common.{
  ℕ, String, Bool, true, false, Option, none, some, List, [], ◌∷◌, ◌++◌, M, Result, ok, raise,
  modify, pure, ◌>>=◌, ◌>>◌, if◌then◌else◌,
}
use aiagent_x.Common.Text.{is_empty}
use aiagent_x.Common.Value.{Value}
use aiagent_x.Approval.Request
use aiagent_x.Approval.Request.{ApprovalRequest, ApprovalError, ApprovalType, not_found}
use aiagent_x.Approval.Table

pub data Notice : Type 0 where
  approval_requested approval_responded : ApprovalRequest → Notice

pub record World : Type 0 where
  pub rows : List ApprovalRequest
  pub notices : List Notice

-- A statement of the repository inside a method of the coordinator.
abbrev pub in_table :
    {A : Type 0} → M (List ApprovalRequest) ApprovalError A → M World ApprovalError A
in_table m w = let (result, rows) = m w.rows in (result, record w { rows = rows })

abbrev pub lift : {A : Type 0} → Result ApprovalError A → M World ApprovalError A
lift result w = (result, w)

abbrev pub notify : Notice → M World ApprovalError (Unit {0})
notify n = modify (λ w. record w { notices = w.notices ++ n ∷ [] })

unfoldable pub request_approval :
    (id now₁ now₂ run_id step_sequence : ℕ)
    → (tool_name action : String) → Option String
    → Value
    → (policy_reason requested_by : String) → (ttl_seconds : ℕ) → ApprovalType
    → M World ApprovalError ApprovalRequest
request_approval id now₁ now₂ run_id step_sequence tool_name action resource input reason by ttl
      kind =
    do
      request ← lift (
          Request.create id now₁ now₂ run_id step_sequence kind tool_name action resource input
            reason by ttl)
      in_table (Table.add request)
      notify (approval_requested request)
      pure request

-- `denial_reason or "Denied by approver"`.
abbrev pub reason_or_default : Option String → String
reason_or_default none = "Denied by approver"
reason_or_default (some reason) = if is_empty reason then "Denied by approver" else reason

-- The answer, given to the entity that was read from the table.
unfoldable pub answer :
    (now₁ now₂ now₃ : ℕ)
    → Bool
    → String
    → Option Value
    → Option String
    → ApprovalRequest
    → Result ApprovalError (Unit {0}) × ApprovalRequest
answer now₁ now₂ now₃ true by response reason = Request.approve now₁ now₂ now₃ by response
answer now₁ now₂ now₃ false by response reason =
    Request.deny now₂ now₃ by (reason_or_default reason)

unfoldable pub respond_with :
    (now : ℕ)
    → Result ApprovalError (Unit {0}) × ApprovalRequest
    → M World ApprovalError ApprovalRequest
respond_with now (raise e, request) w = (raise e, w)
respond_with now (ok _, request) w =
    (do in_table (Table.update now request); notify (approval_responded request); pure request) w

unfoldable pub respond_to_approval :
    (now₁ now₂ now₃ now₄ request_id : ℕ)
    → Bool
    → String
    → Option Value
    → Option String
    → M World ApprovalError ApprovalRequest
unfolding answer respond_with
respond_to_approval now₁ now₂ now₃ now₄ request_id approved by response reason w =
    elim (Table.get request_id w.rows) [
      | none ↦ (raise not_found, w)
      | some request ↦
          respond_with now₄ (answer now₁ now₂ now₃ approved by response reason request) w
    ]

unfoldable pub update : ℕ → ApprovalRequest → M World ApprovalError (Unit {0})
update now request w = in_table (Table.update now request) w

unfoldable pub get_pending_approvals : (ℕ → ℕ) → ℕ → Option ℕ → World → List ApprovalRequest
get_pending_approvals tenant_of tenant run w = Table.get_pending tenant_of tenant run w.rows

unfoldable pub expire_old_requests : ℕ → World → ℕ × World
expire_old_requests now w =
    let (n, rows) = Table.expire_old now w.rows in (n, record w { rows = rows })

-- `cancel_request` of the router: read, cancel, update.
unfoldable pub cancel_request : (now₁ now₂ request_id : ℕ) → M World ApprovalError ApprovalRequest
cancel_request now₁ now₂ request_id w = elim (Table.get request_id w.rows) [
  | none ↦ (raise not_found, w)
  | some request ↦
      let request' = Request.cancel now₁ "Cancelled by user" request in
      (do in_table (Table.update now₂ request'); pure request') w
]
