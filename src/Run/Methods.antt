-- ===== src/Run/Methods.antt =====
-- The methods of `Run` (app/domain/entities/run.py).
use aiagent_x.Common.{
  ℕ, ◌+◌, ◌*◌, ◌-◌, ◌/◌, ◌%◌, String, Bool, true, false, Option, none, some, [], ◌∷◌, ◌++◌, M,
  Result, ok, raise, modify, pure, raise_if, ◌>>◌, ◌>>=◌, not, if◌then◌else◌, length, any, find,
  ltb, leb, ◌==◌, ◌&&◌,
}
use aiagent_x.Common.Int.{ℤ, pos_part, is_neg}
use aiagent_x.Common.Text.{is_empty, str_eq}
use aiagent_x.Common.Value.{Value}
use aiagent_x.Money
use aiagent_x.Money.{Money, MoneyError, TokenUsage}
use aiagent_x.RunState.{
  RunState, RunStepKind, queued, running, awaiting_approval, retry_scheduled, succeeded, failed,
  cancelled, timed_out, is_terminal, can_transition_to, state_in,
}
use aiagent_x.Run.Data.{
  Run, RunStep, RunError, touch, add_event, run_state_changed, run_step_created, run_completed,
  run_failed, run_cancelled, run_timed_out, from_terminal_state, invalid_transition,
  second_out_of_range, max_steps_exceeded, sequence_exists, negative_sequence, exceeds_max_cost,
  money_error,
}

-- `_transition`.
unfoldable pub transition : ℕ → RunState → Option String → M Run RunError (Unit {0})
unfolding touch add_event
transition now new_state reason r =
    (do
      raise_if (is_terminal r.state) (from_terminal_state r.state)
      raise_if (not (can_transition_to r.state new_state)) (invalid_transition r.state new_state)
      modify (λ s. record s { state = new_state })
      modify (touch now)
      modify
          (add_event (run_state_changed r.tenant_id r.agent_version_id r.state new_state reason)))
      r

-- `t.replace(second=s)`: a second outside 0..59 is a ValueError.
unfoldable pub second_of : ℕ → ℕ
second_of t = t / 1000000 % 60

unfoldable pub replace_second : ℕ → ℕ → Option ℕ
unfolding second_of
replace_second t s = if ltb s 60 then some (t - second_of t * 1000000 + s * 1000000) else none

-- `self.lease_expires_at = now.replace(second=now'.second + duration)`.
unfoldable pub set_lease_expiry : (now now' duration : ℕ) → M Run RunError (Unit {0})
set_lease_expiry now now' duration r = elim (replace_second now (second_of now' + duration)) [
  | none ↦ (raise second_out_of_range, r)
  | some t ↦ (ok tt, record r { lease_expires_at = some t })
]

unfoldable pub start : (now₁ now₂ now₃ : ℕ) → String → ℕ → M Run RunError (Unit {0})
start now₁ now₂ now₃ owner duration = do
  transition now₁ running none
  modify (λ s. record s { lease_owner = some owner })
  set_lease_expiry now₂ now₃ duration

abbrev pub default_lease_seconds : ℕ
default_lease_seconds = 300

unfoldable pub request_approval : ℕ → M Run RunError (Unit {0})
request_approval now = transition now awaiting_approval none

unfoldable pub resume_from_approval : ℕ → M Run RunError (Unit {0})
resume_from_approval now = transition now running none

unfoldable pub schedule_retry : ℕ → M Run RunError (Unit {0})
schedule_retry now = do
  transition now retry_scheduled none
  modify (λ s. record s { attempt = s.attempt + 1 })

unfoldable pub requeue : ℕ → M Run RunError (Unit {0})
requeue now = transition now queued none

unfoldable pub complete : ℕ → Value → M Run RunError (Unit {0})
unfolding add_event
complete now output r =
    (do
      transition now succeeded none
      modify (λ s. record s { output_data = some output })
      modify (
          add_event (
            run_completed r.tenant_id r.agent_version_id output r.spent_cost.micro_units
              (length r.steps))))
      r

unfoldable pub fail : ℕ → String → Option ℕ → M Run RunError (Unit {0})
unfolding add_event
fail now error failed_step r =
    (do
      transition now failed (some error)
      modify (add_event (run_failed r.tenant_id r.agent_version_id error failed_step)))
      r

unfoldable pub cancel : (now₁ now₂ : ℕ) → Option String → M Run RunError (Unit {0})
unfolding add_event
cancel now₁ now₂ reason r =
    if is_terminal r.state
    then (ok tt, r)
    else (do
      modify (λ s. record s { cancel_requested_at = some now₁ })
      transition now₂ cancelled reason
      modify (add_event (run_cancelled r.tenant_id r.agent_version_id reason)))
        r

-- The event is built after the transition, from the state that the run has then.
unfoldable pub timeout : ℕ → M Run RunError (Unit {0})
unfolding add_event
timeout now r =
    if is_terminal r.state
    then (ok tt, r)
    else (do
      transition now timed_out none
      λ s. (ok tt, add_event (run_timed_out s.tenant_id s.agent_version_id s.state) s))
        r

-- A lease owner that is an empty text counts as no owner.
unfoldable pub is_lease_valid : ℕ → Run → Bool
is_lease_valid now r = elim r.lease_owner [
  | none ↦ false
  | some owner ↦
      if is_empty owner
      then false
      else elim r.lease_expires_at [ none ↦ false | some t ↦ ltb now t ]
]

abbrev pub owner_is : Option String → String → Bool
owner_is none name = false
owner_is (some owner) name = str_eq owner name

unfoldable pub renew_lease : (now₁ now₂ now₃ : ℕ) → String → ℕ → M Run RunError Bool
unfolding touch
renew_lease now₁ now₂ now₃ owner duration r =
    if not (owner_is r.lease_owner owner)
    then (ok false, r)
    else (do set_lease_expiry now₁ now₂ duration; modify (touch now₃); pure true) r

abbrev pub has_sequence : ℤ → RunStep → Bool
has_sequence q s = not (is_neg q) && s.sequence == pos_part q

abbrev pub new_step : (id now : ℕ) → ℤ → RunStepKind → Option Value → Run → RunStep
new_step id now sequence kind input_data r = record {
  id = id;
  updated_at = now;
  run_id = r.id;
  sequence = pos_part sequence;
  kind = kind;
  state = queued;
  input_data = input_data;
  output_data = none;
  error = none;
}

-- The new step is built, and checks its own sequence, before it is appended.
unfoldable pub add_step : (id now : ℕ) → ℤ → RunStepKind → Option Value → M Run RunError RunStep
unfolding add_event
add_step id now sequence kind input_data r =
    (do
      raise_if (leb r.max_steps (length r.steps)) max_steps_exceeded
      raise_if (any (has_sequence sequence) r.steps) (sequence_exists sequence)
      raise_if (is_neg sequence) negative_sequence
      modify (λ s. record s { steps = s.steps ++ new_step id now sequence kind input_data r ∷ [] })
      modify (add_event (run_step_created r.id (pos_part sequence) kind input_data))
      pure (new_step id now sequence kind input_data r))
      r

unfoldable pub get_step : ℤ → Run → Option RunStep
get_step sequence r = find (has_sequence sequence) r.steps

lift_money : Result MoneyError Money → M Run RunError Money
lift_money (ok m) s = (ok m, s)
lift_money (raise e) s = (raise (money_error e), s)

unfoldable pub record_cost : ℕ → Money → M Run RunError (Unit {0})
unfolding touch lift_money
record_cost now cost r =
    (do
      new_total ← lift_money (Money.add r.spent_cost cost)
      raise_if (Money.lt r.max_cost new_total) exceeds_max_cost
      modify (λ s. record s { spent_cost = new_total })
      modify (touch now))
      r

unfoldable pub record_token_usage : ℕ → TokenUsage → M Run RunError (Unit {0})
record_token_usage now usage =
    let cost_micro = usage.total_tokens * 10 / 1000 in
    if ltb 0 cost_micro then record_cost now (record { micro_units = cost_micro }) else pure tt

unfoldable pub can_execute : Run → Bool
can_execute r = state_in r.state (queued ∷ running ∷ retry_scheduled ∷ [])
