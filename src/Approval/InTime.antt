-- ===== src/Approval/InTime.antt =====
-- Answers and the expiry of requests (app/domain/services/approval_coordinator.py,
-- app/domain/entities/approval_request.py).
use aiagent_x.Common.{
  ℕ, ◌≡◌, ◌⊎◌, inl, inr, String, Bool, true, false, Option, none, some, arith, find, ◌==◌, ◌&&◌,
  not, Option-cases,
}
use aiagent_x.Common.Value.{Value}
use aiagent_x.Approval.Request
use aiagent_x.Approval.Request.{
  ApprovalRequest, ApprovalType, ApprovalState, pending, approved, denied, expired, cancelled,
  state_eq,
}
use aiagent_x.Approval.Table
use aiagent_x.Approval.Table.{has_id, get}
use aiagent_x.Approval.Coordinator.{
  World, request_approval, respond_to_approval, answer, expire_old_requests, cancel_request,
}
use aiagent_x.Approval.Decisions.{
  update, update-state, Call, request, respond, cancel, expire_old, apply, state_at, get-append,
  get-put, get-expire_old, find-id, answer-state, respond-rows,
}

-- The call is an approval of the request, which is pending and has not expired by the clock.
abbrev pub approves_in_time : Call → ℕ → World → Bool
approves_in_time (respond now₁ now₂ now₃ now₄ i true by v reason) j w =
    i == j && elim (find (has_id j) w.rows) [
      | none ↦ false
      | some q ↦ state_eq q.state pending && not (Request.is_expired now₁ q)
    ]
approves_in_time _ j w = false

abbrev pub is_approved : Option ApprovalState → Bool
is_approved none = false
is_approved (some s) = state_eq s approved

request-approves :
    (id a b run step : ℕ) (tool action : String) (resource : Option String) (input : Value)
    (reason by : String) (ttl : ℕ) (kind : ApprovalType) (j : ℕ) (w : World)
    → is_approved (
        state_at j
          (request_approval id a b run step tool action resource input reason by ttl kind w).1)
      ≡ true
    → is_approved (state_at j w) ≡ true
unfolding request_approval Request.create Table.add Table.row_of
request-approves id a b run step tool action resource input reason by ttl kind j w h = ground (
  arith,
  get-append j w.rows (Request.fresh id a b run step kind tool action resource input reason by ttl),
)

respond-approves :
    (a b c d i : ℕ) (yes' : Bool) (by : String) (v : Option Value) (reason : Option String) (j : ℕ)
    (w : World)
    → is_approved (state_at j (respond_to_approval a b c d i yes' by v reason w).1) ≡ true
    → (is_approved (state_at j w) ≡ true)
      ⊎ (approves_in_time (respond a b c d i yes' by v reason) j w ≡ true)
unfolding Table.assign
respond-approves a b c d i yes' by v reason j w h = elim (Option-cases (find (has_id i) w.rows)) [
  | inl missing ↦ ground (arith, respond-rows a b c d i yes' by v reason w)
  | inr (q, found) ↦ ground (
    arith,
    respond-rows a b c d i yes' by v reason w,
    find-id i w.rows q found,
    answer-state a b c yes' by v reason q,
    get-put j d (answer a b c yes' by v reason q).1 w.rows,
  )
]

cancel-approves :
    (a b i j : ℕ) (w : World)
    → is_approved (state_at j (cancel_request a b i w).1) ≡ true
    → is_approved (state_at j w) ≡ true
unfolding cancel_request Request.cancel Table.update get Table.assign
cancel-approves a b i j w h = elim (Option-cases (find (has_id i) w.rows)) [
  | inl missing ↦ ground arith
  | inr (q, found) ↦
      ground (
        arith,
        find-id i w.rows q found,
        get-put j b (Request.cancel a "Cancelled by user" q) w.rows,
      )
]

expire_old-approves :
    (now j : ℕ) (w : World)
    → is_approved (state_at j (expire_old_requests now w).1) ≡ true
    → is_approved (state_at j w) ≡ true
unfolding expire_old_requests Table.is_old
expire_old-approves now j w h = ground (arith, get-expire_old j now w.rows)

-- The call writes an approved entity over the request's row.
abbrev pub writes_approved : Call → ℕ → Bool
writes_approved (update now q) j = q.id == j && state_eq q.state approved
writes_approved _ j = false

-- Whichever call of the coordinator a request becomes approved by: it is an approving answer to it,
-- given while it is pending and, by the clock's reading, not past its expiry, or it is `update` with an
-- entity of that request that is itself approved.
pub approved_in_time :
    (c : Call) (j : ℕ) (w : World)
    → is_approved (state_at j (apply c w)) ≡ true
    → (is_approved (state_at j w) ≡ true)
      ⊎ ((approves_in_time c j w ≡ true) ⊎ (writes_approved c j ≡ true))
unfolding apply
approved_in_time (request id a b run step t k res d p by ttl kind) j w h =
    inl (request-approves id a b run step t k res d p by ttl kind j w h)
approved_in_time (respond a b c d i yes' by v reason) j w h =
    elim (respond-approves a b c d i yes' by v reason j w h) [
      | inl before ↦ inl before
      | inr answered ↦ inr (inl answered)
    ]
approved_in_time (cancel a b i) j w h = inl (cancel-approves a b i j w h)
approved_in_time (expire_old now) j w h = inl (expire_old-approves now j w h)
approved_in_time (update now q) j w h = ground (arith, h, update-state now q j w)
