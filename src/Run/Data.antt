-- ===== src/Run/Data.antt =====
-- The state of a run (app/domain/entities/run.py and base.py) and the events that it records
-- (app/domain/events/run_events.py, budget_events.py).
use aiagent_x.Common.{
  ℕ, ◌==◌, String, Option, none, List, [], ◌∷◌, ◌++◌, Result, ok, raise, if◌then◌else◌,
}
use aiagent_x.Common.Int.{ℤ, pos_part, is_neg, is_nonpos}
use aiagent_x.Common.Text.{is_empty}
use aiagent_x.Common.Value.{Value}
use aiagent_x.Money.{Money, MoneyError}
use aiagent_x.RunState.{RunState, RunStepKind}

pub data RunEvent : Type 0 where
  run_created : (tenant_id agent_version_id : ℕ) → Value → String → RunEvent
  run_state_changed :
      (tenant_id agent_version_id : ℕ) → RunState → RunState → Option String → RunEvent
  run_step_created : (run_id sequence : ℕ) → RunStepKind → Option Value → RunEvent
  run_completed : (tenant_id agent_version_id : ℕ) → Value → (total_cost steps_count : ℕ) → RunEvent
  run_failed : (tenant_id agent_version_id : ℕ) → String → Option ℕ → RunEvent
  run_cancelled : (tenant_id agent_version_id : ℕ) → Option String → RunEvent
  run_timed_out : (tenant_id agent_version_id : ℕ) → RunState → RunEvent
  budget_exceeded : (run_id tenant_id max_cost spent_cost additional_cost : ℕ) → RunEvent
  budget_warning : (run_id tenant_id max_cost spent_cost : ℕ) → RunEvent
  step_limit_exceeded : (run_id tenant_id max_steps current_step : ℕ) → RunEvent
  timeout_exceeded : (run_id tenant_id timeout_seconds elapsed_seconds : ℕ) → RunEvent
  cost_recorded : (run_id tenant_id cost total_spent : ℕ) → (provider model : String) → RunEvent

pub data RunError : Type 0 where
  empty_idempotency_key max_steps_not_positive max_cost_not_positive attempt_negative : RunError
  from_terminal_state : RunState → RunError
  invalid_transition : RunState → RunState → RunError
  second_out_of_range : RunError
  max_steps_exceeded : RunError
  sequence_exists : ℤ → RunError
  negative_sequence : RunError
  exceeds_max_cost : RunError
  money_error : MoneyError → RunError
  cannot_start_step cannot_complete_step cannot_fail_step : RunState → RunError

pub record RunStep : Type 0 where
  pub id : ℕ
  pub updated_at : ℕ
  pub run_id : ℕ
  pub sequence : ℕ
  pub kind : RunStepKind
  pub state : RunState
  pub input_data : Option Value
  pub output_data : Option Value
  pub error : Option String

-- Fields that the constructor checks to be positive, or not negative, are natural numbers.
pub record Run : Type 0 where
  pub id : ℕ
  pub created_at : ℕ
  pub updated_at : ℕ
  pub events : List RunEvent
  pub tenant_id : ℕ
  pub agent_version_id : ℕ
  pub state : RunState
  pub input_data : Value
  pub output_data : Option Value
  pub idempotency_key : String
  pub attempt : ℕ
  pub max_steps : ℕ
  pub max_cost : Money
  pub spent_cost : Money
  pub timeout_seconds : ℕ
  pub lease_owner : Option String
  pub lease_expires_at : Option ℕ
  pub cancel_requested_at : Option ℕ
  pub steps : List RunStep

-- `Entity.touch`.
unfoldable pub touch : ℕ → Run → Run
touch now r = record r { updated_at = now }

-- `AggregateRoot.add_event`.
unfoldable pub add_event : RunEvent → Run → Run
add_event e r = record r { events = r.events ++ e ∷ [] }

-- `AggregateRoot.collect_events`: the pending events, and the run with none.
unfoldable pub collect_events : Run → List RunEvent × Run
collect_events r = (r.events, record r { events = [] })

-- `Run(…)` with `__post_init__`; the output, the lease and the time of a cancellation are at their
-- defaults. The cost that is spent is not compared with the maximum.
unfoldable pub create :
    (id now tenant_id agent_version_id : ℕ)
    → Value
    → String
    → (attempt max_steps : ℤ) → Money
    → ℕ
    → RunState
    → (spent_cost : Money) → Result RunError Run
unfolding add_event
create id now tenant_id agent_version_id input_data key attempt max_steps max_cost timeout_seconds
      state spent_cost =
    if is_empty key
    then raise empty_idempotency_key
    else if is_nonpos max_steps
    then raise max_steps_not_positive
    else if max_cost.micro_units == 0
    then raise max_cost_not_positive
    else if is_neg attempt
    then raise attempt_negative
    else ok (
        add_event (run_created tenant_id agent_version_id input_data key) (record {
          id = id;
          created_at = now;
          updated_at = now;
          events = [];
          tenant_id = tenant_id;
          agent_version_id = agent_version_id;
          state = state;
          input_data = input_data;
          output_data = none;
          idempotency_key = key;
          attempt = pos_part attempt;
          max_steps = pos_part max_steps;
          max_cost = max_cost;
          spent_cost = spent_cost;
          timeout_seconds = timeout_seconds;
          lease_owner = none;
          lease_expires_at = none;
          cancel_requested_at = none;
          steps = [];
        }))
