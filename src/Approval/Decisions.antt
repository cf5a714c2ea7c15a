-- ===== src/Approval/Decisions.antt =====
-- How the table's rows change under the coordinator (app/domain/services/approval_coordinator.py).
use aiagent_x.Common.{
  ℕ, ◌≡◌, inl, inr, refl, String, Bool, true, false, Option, none, some, List, [], ◌∷◌, ◌++◌, arith,
  find, is_some, ◌==◌, ◌||◌, ◌&&◌, if◌then◌else◌, Option-cases, succeeded, not,
}
use aiagent_x.Common.Value.{Value}
use aiagent_x.Approval.Request
use aiagent_x.Approval.Request.{
  ApprovalRequest, ApprovalType, ApprovalState, pending, approved, denied, expired, cancelled,
  state_eq,
}
use aiagent_x.Approval.Table
use aiagent_x.Approval.Table.{has_id, get}
use aiagent_x.Approval.Coordinator
use aiagent_x.Approval.Coordinator.{
  World, request_approval, respond_to_approval, respond_with, answer, expire_old_requests,
  cancel_request,
}

pub get-put :
    (i now : ℕ) (q : ApprovalRequest) (rows : List ApprovalRequest)
    → find (has_id i) (Table.put now q rows) ≡ (
        if q.id == i
        then elim (find (has_id i) rows) [ none ↦ none | some row ↦ some (Table.assign now q row) ]
        else find (has_id i) rows)
unfolding Table.put
get-put i now q [] = ground arith
get-put i now q (row ∷ rows) = ground (arith, get-put i now q rows)

pub get-append :
    (i : ℕ) (rows : List ApprovalRequest) (q : ApprovalRequest)
    → find (has_id i) (rows ++ q ∷ []) ≡ (
        if is_some (find (has_id i) rows)
        then find (has_id i) rows
        else if q.id == i
        then some q
        else none)
get-append i [] q = ground arith
get-append i (row ∷ rows) q = ground (arith, get-append i rows q)

abbrev pub aged : ℕ → ApprovalRequest → ApprovalRequest
aged now q = if Table.is_old now q then record q { state = expired } else q

pub get-expire_old :
    (i now : ℕ) (rows : List ApprovalRequest)
    → find (has_id i) (Table.expire_old now rows).1
      ≡ elim (find (has_id i) rows) [ none ↦ none | some q ↦ some (aged now q) ]
unfolding Table.expire_old
get-expire_old i now [] = refl
get-expire_old i now (q ∷ rows) = ground (arith, get-expire_old i now rows)

-- What a caller can ask of the coordinator.
pub data Call : Type 0 where
  request :
      (id now₁ now₂ run_id step_sequence : ℕ)
      → (tool_name action : String) → Option String
      → Value
      → (policy_reason requested_by : String) → (ttl_seconds : ℕ) → ApprovalType
      → Call
  respond :
      (now₁ now₂ now₃ now₄ request_id : ℕ) → Bool → String → Option Value → Option String → Call
  cancel : (now₁ now₂ request_id : ℕ) → Call
  expire_old : ℕ → Call
  update : ℕ → ApprovalRequest → Call

unfoldable pub apply : Call → World → World
apply (request id now₁ now₂ run step tool action resource input reason by ttl kind) w =
    (request_approval id now₁ now₂ run step tool action resource input reason by ttl kind w).1
apply (respond now₁ now₂ now₃ now₄ i yes' by response reason) w =
    (respond_to_approval now₁ now₂ now₃ now₄ i yes' by response reason w).1
apply (cancel now₁ now₂ i) w = (cancel_request now₁ now₂ i w).1
apply (expire_old now) w = (expire_old_requests now w).1
apply (update now q) w = (Coordinator.update now q w).1

unfoldable pub apply_all : List Call → World → World
apply_all [] w = w
apply_all (c ∷ calls) w = apply_all calls (apply c w)

abbrev pub state_at : ℕ → World → Option ApprovalState
state_at i w = elim (find (has_id i) w.rows) [ none ↦ none | some q ↦ some q.state ]

-- A row takes the state of an entity that is written over it.
pub update-state :
    (now : ℕ) (q : ApprovalRequest) (j : ℕ) (w : World)
    → state_at j (Coordinator.update now q w).1
      ≡ (if q.id == j && is_some (find (has_id j) w.rows) then some q.state else state_at j w)
unfolding Coordinator.update Table.update Table.assign
update-state now q j w = elim (Option-cases (find (has_id q.id) w.rows)) [
  | inl missing ↦ ground (arith, missing)
  | inr (row, found) ↦ ground (arith, found, get-put j now q w.rows)
]

-- A new request is pending, a pending one may take any state, an approved one may be cancelled,
-- and every other one stays.
abbrev pub progress : Option ApprovalState → Option ApprovalState → Bool
progress none none = true
progress none (some t) = state_eq t pending
progress (some s) none = false
progress (some s) (some t) =
    state_eq s t || state_eq s pending || (state_eq s approved && state_eq t cancelled)

pub request-progress :
    (id now₁ now₂ run step : ℕ) (tool action : String) (resource : Option String) (input : Value)
    (reason by : String) (ttl : ℕ) (kind : ApprovalType) (i : ℕ) (w : World)
    → progress (state_at i w) (
        state_at i
          (request_approval id now₁ now₂ run step tool action resource input reason by ttl kind
            w).1)
      ≡ true
unfolding request_approval Request.create Table.add Table.row_of
request-progress id now₁ now₂ run step tool action resource input reason by ttl kind i w = ground (
  arith,
  get-append i w.rows
      (Request.fresh id now₁ now₂ run step kind tool action resource input reason by ttl),
)

pub find-id :
    (i : ℕ) (rows : List ApprovalRequest) (q : ApprovalRequest)
    → find (has_id i) rows ≡ some q
    → q.id ≡ i
find-id i [] q h = ground arith
find-id i (row ∷ rows) q h = ground (arith, find-id i rows q)

-- An answer that is taken moves a pending request to APPROVED, unless it has expired, or to
-- DENIED; else it raises and changes nothing. The identity stays.
pub answer-state :
    (now₁ now₂ now₃ : ℕ) (yes' : Bool) (by : String) (response : Option Value)
    (reason : Option String) (q : ApprovalRequest)
    → let a = answer now₁ now₂ now₃ yes' by response reason q in
      let taken = state_eq q.state pending && not (yes' && Request.is_expired now₁ q) in
      (succeeded a.0 ≡ taken)
      × (a.1.id ≡ q.id)
      × (a.1.state ≡ (if taken then (if yes' then approved else denied) else q.state))
unfolding answer Request.approve Request.deny
answer-state now₁ now₂ now₃ true by response reason q = ground arith
answer-state now₁ now₂ now₃ false by response reason q = ground arith

pub respond-rows :
    (now₁ now₂ now₃ now₄ i : ℕ) (yes' : Bool) (by : String) (response : Option Value)
    (reason : Option String) (w : World)
    → (respond_to_approval now₁ now₂ now₃ now₄ i yes' by response reason w).1.rows
      ≡ elim (find (has_id i) w.rows) [
        | none ↦ w.rows
        | some q ↦
            let a = answer now₁ now₂ now₃ yes' by response reason q in
            if succeeded a.0 then Table.put now₄ a.1 w.rows else w.rows
      ]
unfolding respond_to_approval respond_with Table.update get
respond-rows now₁ now₂ now₃ now₄ i yes' by response reason w =
    elim (Option-cases (find (has_id i) w.rows)) [
      | inl missing ↦ ground arith
      | inr (q, found) ↦
          ground
            (arith, find-id i w.rows q found, answer-state now₁ now₂ now₃ yes' by response reason q)
    ]

-- A response succeeds if the request is there and takes the answer.
pub respond-succeeded :
    (now₁ now₂ now₃ now₄ i : ℕ) (yes' : Bool) (by : String) (response : Option Value)
    (reason : Option String) (w : World)
    → succeeded (respond_to_approval now₁ now₂ now₃ now₄ i yes' by response reason w).0
      ≡ elim (find (has_id i) w.rows) [
        | none ↦ false
        | some q ↦ succeeded (answer now₁ now₂ now₃ yes' by response reason q).0
      ]
unfolding respond_to_approval respond_with Table.update get
respond-succeeded now₁ now₂ now₃ now₄ i yes' by response reason w =
    elim (Option-cases (find (has_id i) w.rows)) [
      | inl missing ↦ ground arith
      | inr (q, found) ↦
          ground
            (arith, find-id i w.rows q found, answer-state now₁ now₂ now₃ yes' by response reason q)
    ]

pub respond-progress :
    (now₁ now₂ now₃ now₄ i : ℕ) (yes' : Bool) (by : String) (response : Option Value)
    (reason : Option String) (j : ℕ) (w : World)
    → progress
        (state_at j w)
        (state_at j (respond_to_approval now₁ now₂ now₃ now₄ i yes' by response reason w).1)
      ≡ true
respond-progress now₁ now₂ now₃ now₄ i yes' by response reason j w =
    elim (Option-cases (find (has_id i) w.rows)) [
      | inl missing ↦ ground (arith, respond-rows now₁ now₂ now₃ now₄ i yes' by response reason w)
      | inr (q, found) ↦ ground (
        arith,
        respond-rows now₁ now₂ now₃ now₄ i yes' by response reason w,
        find-id i w.rows q found,
        answer-state now₁ now₂ now₃ yes' by response reason q,
        get-put j now₄ (answer now₁ now₂ now₃ yes' by response reason q).1 w.rows,
      )
    ]
