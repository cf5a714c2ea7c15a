-- ===== src/Tests/Runs.antt =====
-- A run with a budget of 1000 micro-units and two steps (app/domain/entities/run.py).
use aiagent_x.Common.{◌++◌, arith, ◌≡◌, refl, false, none, some, List, [], ◌∷◌, succeeded}
use aiagent_x.Common.Int.{pos}
use aiagent_x.Common.Value.{null}
use aiagent_x.Money.{money, new}
use aiagent_x.RunState.{RunState, queued, running, timed_out, model_call}
use aiagent_x.Run.Data
use aiagent_x.Run.Data.{Run, RunError, run_created, second_out_of_range, add_event, touch}
use aiagent_x.Run.Methods
use aiagent_x.Run.Methods.{default_lease_seconds, transition, is_lease_valid}
use aiagent_x.Run.Calls.{collected, Call, apply, apply_all}
use aiagent_x.Run.Bounds.{IsValid, create-apply_all-IsValid}
use aiagent_x.Run.Lifecycle.{SameOutcome, terminal_absorbs}
use aiagent_x.Run.Log.{IsLogged}
use aiagent_x.Run.Log.Methods.{create-apply_all-IsLogged}
use aiagent_x.Run.Lease.{start_default_raises}

abbrev pub new_run : Run
new_run = record {
  id = 1;
  created_at = 5000000;
  updated_at = 5000000;
  events = run_created 7 3 null "key" ∷ [];
  tenant_id = 7;
  agent_version_id = 3;
  state = queued;
  input_data = null;
  output_data = none;
  idempotency_key = "key";
  attempt = 0;
  max_steps = 2;
  max_cost = money 1000;
  spent_cost = money 0;
  timeout_seconds = 60;
  lease_owner = none;
  lease_expires_at = none;
  cancel_requested_at = none;
  steps = [];
}

abbrev ended_run : Run
ended_run = record new_run { state = timed_out }

-- A first attempt that is retried, and a second one that spends, asks for approval and completes.
abbrev two_attempts : List Call
two_attempts =
    Call.start 6000000 6000000 6000000 "worker" 30
    ∷ Call.schedule_retry 7000000
    ∷ Call.collect_events
    ∷ Call.requeue 8000000
    ∷ Call.start 9000000 9000000 9000000 "worker" 30
    ∷ Call.record_cost 9500000 (money 900)
    ∷ Call.record_cost 9600000 (money 200)
    ∷ Call.add_step 4 9700000 (pos 0) model_call none
    ∷ Call.request_approval 10000000
    ∷ Call.resume_from_approval 11000000
    ∷ Call.complete 12000000 null
    ∷ Call.cancel 13000000 13000000 none
    ∷ []

two_attempts_end :
    ((apply_all two_attempts new_run).state ≡ RunState.succeeded)
    × ((apply_all two_attempts new_run).attempt ≡ 1)
    × ((apply_all two_attempts new_run).spent_cost ≡ money 900)
unfolding apply_all apply Methods.cancel aiagent_x.RunState.is_terminal Methods.complete transition
    Methods.resume_from_approval Methods.request_approval Methods.add_step Methods.record_cost
    aiagent_x.Money.add Methods.start Methods.requeue Methods.schedule_retry
    aiagent_x.RunState.can_transition_to Methods.set_lease_expiry Methods.replace_second
    Data.collect_events
two_attempts_end = (refl, refl, refl)

create-apply_all-IsLogged_example :
    IsLogged 0 queued
      (collected two_attempts new_run ++ (apply_all two_attempts new_run).events)
      (apply_all two_attempts new_run)
unfolding Data.create
create-apply_all-IsLogged_example =
    create-apply_all-IsLogged 1 5000000 7 3 null "key" (pos 0) (pos 2) (money 1000) 60 queued
      (money 0) refl two_attempts

create-apply_all-IsValid_example : IsValid (apply_all two_attempts new_run)
unfolding Data.create
create-apply_all-IsValid_example =
    create-apply_all-IsValid 1 5000000 7 3 null "key" (pos 0) (pos 2) (money 1000) 60 queued
      (money 0) (omega arith) refl two_attempts

terminal_absorbs_example : SameOutcome ended_run (apply_all two_attempts ended_run)
unfolding aiagent_x.RunState.is_terminal
terminal_absorbs_example = terminal_absorbs two_attempts ended_run refl

start_default_raises_example :
    (succeeded (Methods.start 6000000 6000000 6000000 "worker" default_lease_seconds new_run).0
      ≡ false)
    × ((Methods.start 6000000 6000000 6000000 "worker" default_lease_seconds new_run).1.state
        ≡ running)
    × ((Methods.start 6000000 6000000 6000000 "worker" default_lease_seconds new_run).1.lease_owner
        ≡ some "worker")
unfolding aiagent_x.RunState.can_transition_to
start_default_raises_example = start_default_raises 6000000 6000000 6000000 "worker" new_run refl
