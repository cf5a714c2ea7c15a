-- ===== src/Approval/History.antt =====
-- Requests under any sequence of calls of the coordinator
-- (app/domain/services/approval_coordinator.py).
use aiagent_x.Common.{
  ◌==◌, ◌&&◌, Bool-cases, ℕ, ◌≡◌, inl, inr, String, Bool, true, false, Option, none, some, List, [],
  ◌∷◌, arith, find, not, Option-cases, succeeded,
}
use aiagent_x.Common.Value.{Value}
use aiagent_x.Approval.Request
use aiagent_x.Approval.Request.{
  ApprovalRequest, ApprovalState, pending, approved, denied, expired, cancelled, state_eq,
}
use aiagent_x.Approval.Table
use aiagent_x.Approval.Table.{has_id, get}
use aiagent_x.Approval.Coordinator.{
  World, respond_to_approval, answer, expire_old_requests, cancel_request,
}
use aiagent_x.Approval.Decisions.{
  update, update-state, Call, request, respond, cancel, expire_old, apply, apply_all, state_at,
  progress, get-put, get-expire_old, find-id, answer-state, respond-rows, respond-succeeded,
  respond-progress, request-progress,
}

cancel-progress :
    (now₁ now₂ i j : ℕ) (w : World)
    → progress (state_at j w) (state_at j (cancel_request now₁ now₂ i w).1) ≡ true
unfolding cancel_request Request.cancel Table.update get Table.assign
cancel-progress now₁ now₂ i j w = elim (Option-cases (find (has_id i) w.rows)) [
  | inl missing ↦ ground arith
  | inr (q, found) ↦ ground (
    arith,
    find-id i w.rows q found,
    get-put j now₂ (Request.cancel now₁ "Cancelled by user" q) w.rows,
  )
]

expire_old-progress :
    (now j : ℕ) (w : World)
    → progress (state_at j w) (state_at j (expire_old_requests now w).1) ≡ true
unfolding expire_old_requests Table.is_old
expire_old-progress now j w = ground (arith, get-expire_old j now w.rows)

abbrev pub is_settled : Option ApprovalState → Bool
is_settled none = false
is_settled (some s) = not (state_eq s pending)

-- The call writes an entity that is still pending over a row that is not, as an entity is that was
-- read before the answer.
abbrev pub is_stale : Call → World → Bool
is_stale (update now q) w = state_eq q.state pending && is_settled (state_at q.id w)
is_stale _ w = false

-- None of the calls does so at its turn.
unfoldable pub never_stale : List Call → World → Bool
unfolding apply
never_stale [] w = true
never_stale (c ∷ calls) w = let rest = never_stale calls (apply c w) in not (is_stale c w) && rest

update_settled :
    (now : ℕ) (q : ApprovalRequest) (j : ℕ) (w : World)
    → is_stale (update now q) w ≡ false
    → is_settled (state_at j w) ≡ true
    → is_settled (state_at j (apply (update now q) w)) ≡ true
unfolding apply
update_settled now q j w fresh h = elim (Bool-cases (q.id == j)) [
  | inl same ↦ ground (arith, h, fresh, same, update-state now q j w)
  | inr other ↦ ground (arith, h, other, update-state now q j w)
]

settled_step :
    (c : Call) (j : ℕ) (w : World)
    → is_stale c w ≡ false
    → is_settled (state_at j w) ≡ true
    → is_settled (state_at j (apply c w)) ≡ true
unfolding apply
settled_step (request id a b run step t k res d p by ttl kind) j w fresh h =
    ground (arith, h, request-progress id a b run step t k res d p by ttl kind j w)
settled_step (respond a b c d i yes' by v reason) j w fresh h =
    ground (arith, h, respond-progress a b c d i yes' by v reason j w)
settled_step (cancel a b i) j w fresh h = ground (arith, h, cancel-progress a b i j w)
settled_step (expire_old now) j w fresh h = ground (arith, h, expire_old-progress now j w)
settled_step (update now q) j w fresh h = update_settled now q j w fresh h

settled_all :
    (calls : List Call) (j : ℕ) (w : World)
    → never_stale calls w ≡ true
    → is_settled (state_at j w) ≡ true
    → is_settled (state_at j (apply_all calls w)) ≡ true
unfolding apply_all never_stale
settled_all [] j w fresh h = h
settled_all (c ∷ calls) j w fresh h =
    settled_all calls j (apply c w) (ground (arith, fresh))
      (settled_step c j w (ground (arith, fresh)) h)

-- An answer settles the request.
respond-settles :
    (a b c d i : ℕ) (yes' : Bool) (by : String) (v : Option Value) (reason : Option String)
    (w : World)
    → succeeded (respond_to_approval a b c d i yes' by v reason w).0 ≡ true
    → is_settled (state_at i (respond_to_approval a b c d i yes' by v reason w).1) ≡ true
unfolding Table.assign
respond-settles a b c d i yes' by v reason w h = elim (Option-cases (find (has_id i) w.rows)) [
  | inl missing ↦ ground (arith, respond-succeeded a b c d i yes' by v reason w)
  | inr (q, found) ↦ ground (
    arith,
    respond-succeeded a b c d i yes' by v reason w,
    respond-rows a b c d i yes' by v reason w,
    find-id i w.rows q found,
    answer-state a b c yes' by v reason q,
    get-put i d (answer a b c yes' by v reason q).1 w.rows,
  )
]

respond-refused :
    (a b c d i : ℕ) (yes' : Bool) (by : String) (v : Option Value) (reason : Option String)
    (w : World)
    → is_settled (state_at i w) ≡ true
    → succeeded (respond_to_approval a b c d i yes' by v reason w).0 ≡ false
respond-refused a b c d i yes' by v reason w h = elim (Option-cases (find (has_id i) w.rows)) [
  | inl missing ↦ ground (arith, respond-succeeded a b c d i yes' by v reason w)
  | inr (q, found) ↦
      ground (
        arith,
        respond-succeeded a b c d i yes' by v reason w,
        answer-state a b c yes' by v reason q,
      )
]

-- A request is decided at most once: after an answer that was taken, and any calls of the coordinator
-- since, a second answer to the same request raises. The calls include its `update`, which writes
-- whatever entity it is given; it is only assumed that no such entity is stale, pending still where its
-- row is not.
pub decided_once :
    (a b c d i : ℕ) (yes' : Bool) (by : String) (v : Option Value) (reason : Option String)
    (w : World)
    → succeeded (respond_to_approval a b c d i yes' by v reason w).0 ≡ true
    → (calls : List Call)
    → never_stale calls (respond_to_approval a b c d i yes' by v reason w).1 ≡ true
    → (a' b' c' d' : ℕ) (yes'' : Bool) (by' : String) (v' : Option Value) (reason' : Option String)
    → succeeded
        (respond_to_approval a' b' c' d' i yes'' by' v' reason'
          (apply_all calls (respond_to_approval a b c d i yes' by v reason w).1)).0
      ≡ false
decided_once a b c d i yes' by v reason w h calls fresh a' b' c' d' yes'' by' v' reason' =
    respond-refused a' b' c' d' i yes'' by' v' reason' _
      (settled_all calls i _ fresh (respond-settles a b c d i yes' by v reason w h))
