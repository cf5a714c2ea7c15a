-- ===== src/Budget.antt =====
-- The checks of `BudgetService` on a run (app/application/services/budget_service.py). The run is
-- the one that the repository returns, if it has one. `warns spent max` is the comparison of the
-- percentage `spent / max * 100`, a float, with the configured threshold. Times are in
-- microseconds.
pub mod Checked
pub mod Stored
use aiagent_x.Common.{
  ℕ, ◌+◌, ◌-◌, ◌*◌, ◌/◌, String, Bool, true, false, Option, none, some, M, Result, ok, raise,
  modify, pure, bind_result, ◌>>=◌, ◌>>◌, ltb, leb, ◌==◌, length, if◌then◌else◌, not,
}
use aiagent_x.Common.Int.{ℤ, pos, sub_ℕ}
use aiagent_x.Money
use aiagent_x.Money.{Money, MoneyError, money}
use aiagent_x.Run.Data.{
  Run, RunError, RunEvent, add_event, budget_exceeded, budget_warning, step_limit_exceeded,
  timeout_exceeded, cost_recorded,
}
use aiagent_x.Run.Methods
use aiagent_x.Run.Table.{Entity}

pub record BudgetCheckResult : Type 0 where
  pub allowed : Bool
  pub reason : Option String
  pub remaining_budget : Money
  pub remaining_steps : ℕ
  pub remaining_time : ℤ

pub data BudgetError : Type 0 where
  money_error : MoneyError → BudgetError
  zero_division : BudgetError
  cost_is_a_number : BudgetError
  run_error : RunError → BudgetError

abbrev pub refused : String → Money → BudgetCheckResult
refused reason budget = record {
  allowed = false;
  reason = some reason;
  remaining_budget = budget;
  remaining_steps = 0;
  remaining_time = pos 0;
}

abbrev pub lift_money : Result MoneyError Money → M Run BudgetError Money
lift_money (ok m) r = (ok m, r)
lift_money (raise e) r = (raise (money_error e), r)

abbrev pub timed_out_at : ℕ → Run → Bool
timed_out_at now r = ltb (r.created_at + r.timeout_seconds * 1000000) now

-- The last two checks: the steps, and the time.
unfoldable pub check_progress : (now : ℕ) → Money → M Run BudgetError BudgetCheckResult
check_progress now new_total r =
    if leb r.max_steps (length r.steps)
    then (
      ok (refused "Run would exceed maximum step limit" (money 0)),
      add_event (step_limit_exceeded r.id r.tenant_id r.max_steps (length r.steps)) r,
    )
    else if timed_out_at now r
    then (
      ok (refused "Run would exceed timeout limit" (money 0)),
      add_event
          (timeout_exceeded r.id r.tenant_id r.timeout_seconds ((now - r.created_at) / 1000000)) r,
    )
    else (do
      remaining ← lift_money (Money.sub r.max_cost new_total)
      pure (record {
        allowed = true;
        reason = none;
        remaining_budget = remaining;
        remaining_steps = r.max_steps - length r.steps;
        remaining_time = sub_ℕ (r.created_at + r.timeout_seconds * 1000000) now;
      }))
        r

module _ (warns : ℕ → ℕ → Bool) where
  unfoldable pub check_warning : M Run BudgetError (Unit {0})
  check_warning r =
      if r.max_cost.micro_units == 0
      then (raise zero_division, r)
      else if warns r.spent_cost.micro_units r.max_cost.micro_units
      then (
        ok tt,
        add_event (budget_warning r.id r.tenant_id r.max_cost.micro_units r.spent_cost.micro_units)
            r,
      )
      else (ok tt, r)

  unfoldable pub check_cost : (now : ℕ) → Money → Money → M Run BudgetError BudgetCheckResult
  check_cost now additional_cost new_total r =
      if Money.lt r.max_cost new_total
      then (do
        modify (
            add_event (
              budget_exceeded r.id r.tenant_id r.max_cost.micro_units r.spent_cost.micro_units
                additional_cost.micro_units))
        remaining ← lift_money (Money.sub r.max_cost r.spent_cost)
        pure (refused "Run would exceed maximum cost limit" remaining))
          r
      else (check_warning >> check_progress now new_total) r

  unfoldable pub check_run : (now : ℕ) → Money → M Run BudgetError BudgetCheckResult
  check_run now additional_cost r =
      (do
        new_total ← lift_money (Money.add r.spent_cost additional_cost)
        check_cost now additional_cost new_total)
        r

  -- The sum of an `int` and a `Money` raises a TypeError.
  unfoldable pub check_run_budget :
      (now : ℕ) → Money → Option Entity → Result BudgetError BudgetCheckResult × Option Run
  check_run_budget now additional_cost none = (ok (refused "Run not found" (money 0)), none)
  check_run_budget now additional_cost (some e) =
      let (result, r') = check_run now additional_cost e.run in
      if e.spent_is_money then (result, some r') else (raise cost_is_a_number, some e.run)

-- `record_spent` on the run that the repository returned: what the service stores of it (the run
-- as it is before the event is added), the result, and the object that is left.
unfoldable pub record_spent :
    (now : ℕ)
    → Money
    → (provider model : String) → Entity
    → Option Run × Result BudgetError (Unit {0}) × Run
record_spent now cost provider model entity =
    let (result, r') = Methods.record_cost now cost entity.run in
    if not entity.spent_is_money then (none, raise cost_is_a_number, entity.run) else elim result [
      | raise e ↦ (none, raise (run_error e), r')
      | ok _ ↦ (
        some r',
        ok tt,
        add_event
            (cost_recorded r'.id r'.tenant_id cost.micro_units r'.spent_cost.micro_units provider
              model)
            r',
      )
    ]

unfoldable pub check_step_limit : Option Run → Bool
check_step_limit none = false
check_step_limit (some r) = ltb (length r.steps) r.max_steps

unfoldable pub check_timeout : (now : ℕ) → Option Run → Bool
check_timeout now none = false
check_timeout now (some r) = not (timed_out_at now r)

unfoldable pub get_remaining_budget : Option Entity → Result BudgetError Money
get_remaining_budget none = ok (money 0)
get_remaining_budget (some e) =
    if not e.spent_is_money
    then raise cost_is_a_number
    else (lift_money (Money.sub e.run.max_cost e.run.spent_cost) e.run).0
