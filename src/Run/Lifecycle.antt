-- ===== src/Run/Lifecycle.antt =====
-- The states that method calls can take a run through (app/domain/entities/run.py).
use aiagent_x.Common.{
  inl, ℕ, ◌≡◌, refl, ◌⊎◌, true, String, Option, none, some, List, [], ◌∷◌, arith, ok, raise,
  if◌then◌else◌,
}
use aiagent_x.RunState.{
  RunState, queued, running, awaiting_approval, retry_scheduled, succeeded, failed, cancelled,
  timed_out, is_terminal, can_transition_to,
}
use aiagent_x.Run.Data.{
  collect_events, Run, touch, add_event, run_state_changed, from_terminal_state, invalid_transition,
}
use aiagent_x.Run.Methods.{
  transition, start, set_lease_expiry, request_approval, resume_from_approval, schedule_retry,
  requeue, complete, fail, cancel, timeout, renew_lease, add_step, record_cost, record_token_usage,
}
use aiagent_x.Run.Calls.{Call, apply, apply_all}

-- The run with its state replaced, touched, and with the change recorded.
abbrev pub moved : ℕ → RunState → Option String → Run → Run
moved now s reason r =
    add_event (run_state_changed r.tenant_id r.agent_version_id r.state s reason)
      (touch now (record r { state = s }))

-- `_transition` succeeds exactly on a listed transition, with the change recorded; else it raises,
-- naming the terminal state or the refused pair, and leaves the run as it was.
pub transition_lem :
    (now : ℕ) (s : RunState) (reason : Option String) (r : Run)
    → transition now s reason r ≡ (
        if can_transition_to r.state s then (ok tt, moved now s reason r) else (
          raise (
              if is_terminal r.state
              then from_terminal_state r.state
              else invalid_transition r.state s),
          r,
        ))
unfolding transition is_terminal can_transition_to
transition_lem now s reason r = ground arith

-- The state stays, or follows one listed transition.
abbrev pub StepsTo : RunState → RunState → Type 0
StepsTo s t = (t ≡ s) ⊎ (can_transition_to s t ≡ true)

transition-StepsTo :
    (now : ℕ) (s : RunState) (reason : Option String) (r : Run)
    → StepsTo r.state (transition now s reason r).1.state
unfolding transition
transition-StepsTo now s reason r = ground arith

-- No call, whether it returns or raises, takes a run more than one listed transition further.
pub apply-StepsTo : (c : Call) (r : Run) → StepsTo r.state (apply c r).state
unfolding apply request_approval resume_from_approval requeue collect_events
apply-StepsTo (Call.start a b c o d) r =
    unfold start set_lease_expiry in ground (arith, transition-StepsTo a running none r)
apply-StepsTo (Call.request_approval now) r = transition-StepsTo now awaiting_approval none r
apply-StepsTo (Call.resume_from_approval now) r = transition-StepsTo now running none r
apply-StepsTo (Call.schedule_retry now) r =
    unfold schedule_retry in ground (arith, transition-StepsTo now retry_scheduled none r)
apply-StepsTo (Call.requeue now) r = transition-StepsTo now queued none r
apply-StepsTo (Call.timeout now) r =
    unfold timeout in ground (arith, transition-StepsTo now timed_out none r)
apply-StepsTo (Call.complete now v) r =
    unfold complete in ground (arith, transition-StepsTo now succeeded none r)
apply-StepsTo (Call.fail now e k) r =
    unfold fail in ground (arith, transition-StepsTo now failed (some e) r)
apply-StepsTo (Call.cancel a b reason) r =
    unfold cancel in
    ground
      (arith, transition-StepsTo b cancelled reason (record r { cancel_requested_at = some a }))
apply-StepsTo (Call.renew_lease a b c o d) r = unfold renew_lease set_lease_expiry in ground arith
apply-StepsTo (Call.add_step id now q k d) r = unfold add_step in ground arith
apply-StepsTo (Call.record_cost now m) r = unfold record_cost in ground arith
apply-StepsTo (Call.record_token_usage now u) r =
    unfold record_token_usage record_cost in ground arith
apply-StepsTo Call.collect_events r = inl refl

-- What a finished run keeps whatever is called on it.
abbrev pub SameOutcome : Run → Run → Type 0
SameOutcome r r' =
    (r'.state ≡ r.state)
    × (r'.attempt ≡ r.attempt)
    × (r'.output_data ≡ r.output_data)
    × (r'.cancel_requested_at ≡ r.cancel_requested_at)

transition_refused :
    (now : ℕ) (s : RunState) (reason : Option String) (r : Run)
    → is_terminal r.state ≡ true
    → transition now s reason r ≡ (raise (from_terminal_state r.state), r)
unfolding transition
transition_refused now s reason r h = rw h

terminal_step : (c : Call) (r : Run) → is_terminal r.state ≡ true → SameOutcome r (apply c r)
unfolding apply request_approval resume_from_approval requeue collect_events
terminal_step (Call.start a b c o d) r h =
    unfold start in ground (arith, transition_refused a running none r h)
terminal_step (Call.request_approval now) r h =
    ground (arith, transition_refused now awaiting_approval none r h)
terminal_step (Call.resume_from_approval now) r h =
    ground (arith, transition_refused now running none r h)
terminal_step (Call.schedule_retry now) r h =
    unfold schedule_retry in ground (arith, transition_refused now retry_scheduled none r h)
terminal_step (Call.requeue now) r h = ground (arith, transition_refused now queued none r h)
terminal_step (Call.timeout now) r h = unfold timeout in ground arith
terminal_step (Call.complete now v) r h =
    unfold complete in ground (arith, transition_refused now succeeded none r h)
terminal_step (Call.fail now e k) r h =
    unfold fail in ground (arith, transition_refused now failed (some e) r h)
terminal_step (Call.cancel a b reason) r h = unfold cancel in ground arith
terminal_step (Call.renew_lease a b c o d) r h = unfold renew_lease set_lease_expiry in ground arith
terminal_step (Call.add_step id now q k d) r h = unfold add_step in ground arith
terminal_step (Call.record_cost now m) r h = unfold record_cost in ground arith
terminal_step (Call.record_token_usage now u) r h =
    unfold record_token_usage record_cost in ground arith
terminal_step Call.collect_events r h = (refl, refl, refl, refl)

-- Once a run is in a terminal state, no sequence of calls changes its state, its attempts, its
-- output or its time of cancellation.
pub terminal_absorbs :
    (calls : List Call) (r : Run) → is_terminal r.state ≡ true → SameOutcome r (apply_all calls r)
unfolding apply_all
terminal_absorbs [] r h = (refl, refl, refl, refl)
terminal_absorbs (c ∷ calls) r h =
    let step = terminal_step c r h in
    let rest = terminal_absorbs calls (apply c r) (rw step.0 h) in ground arith
