-- ===== src/Budget/Checked.antt =====
-- What an answer of the budget check promises (app/application/services/budget_service.py).
use aiagent_x.Common.{
  ℕ, ◌+◌, ◌-◌, ◌≤◌, ◌<◌, ◌≡◌, Bool, true, some, [], arith, ok, leb, ◌&&◌, succeeded, bind_result,
  Result-cases, inl, inr, ap, sym, ◌∙◌,
}
use aiagent_x.Money
use aiagent_x.Money.{Money, money}
use aiagent_x.Run.Data.{Run, add_event, touch}
use aiagent_x.Run.Methods
use aiagent_x.Budget.{
  BudgetCheckResult, check_progress, check_warning, check_cost, check_run, check_step_limit,
  check_timeout, lift_money,
}

add_lem : (a b : Money) → Money.add a b ≡ ok (money (a.micro_units + b.micro_units))
unfolding Money.add Money.new
add_lem a b = ground arith

sub_lem :
    (a b : Money)
    → b.micro_units ≤ a.micro_units
    → Money.sub a b ≡ ok (money (a.micro_units - b.micro_units))
unfolding Money.sub Money.new
sub_lem a b h = ground arith

record_cost_lem :
    (now : ℕ) (cost : Money) (r : Run)
    → r.spent_cost.micro_units + cost.micro_units ≤ r.max_cost.micro_units
    → ((Methods.record_cost now cost r).0 ≡ ok tt)
      × ((Methods.record_cost now cost r).1.spent_cost.micro_units
          ≡ r.spent_cost.micro_units + cost.micro_units)
unfolding Methods.record_cost touch
record_cost_lem now cost r fits = ground (arith, add_lem r.spent_cost cost)

module _ (warns : ℕ → ℕ → Bool) where
  check_run_lem :
      (now : ℕ) (cost : Money) (r : Run)
      → check_run warns now cost r
        ≡ check_cost warns now cost (money (r.spent_cost.micro_units + cost.micro_units)) r
  unfolding check_run
  check_run_lem now cost r =
      ap (λ x. bind_result (lift_money x r) (check_cost warns now cost)) (add_lem r.spent_cost cost)

  check_cost-allowed :
      (now : ℕ) (cost total : Money) (r : Run) (answer : BudgetCheckResult)
      → (check_cost warns now cost total r).0 ≡ ok answer
      → answer.allowed ≡ (
          leb total.micro_units r.max_cost.micro_units
          && (check_step_limit (some r) && check_timeout now (some r)))
  unfolding check_cost check_warning check_progress check_step_limit check_timeout add_event
  check_cost-allowed now cost total r answer eq = ground arith

  check_cost-succeeded :
      (now : ℕ) (cost total : Money) (r : Run)
      → 0 < r.max_cost.micro_units
      → r.spent_cost.micro_units ≤ r.max_cost.micro_units
      → succeeded (check_cost warns now cost total r).0 ≡ true
  unfolding check_cost check_warning check_progress add_event
  check_cost-succeeded now cost total r positive spent =
      ground (arith, sub_lem r.max_cost r.spent_cost, sub_lem r.max_cost total)

  -- The check of a run with a positive maximum cost, not yet exceeded, always comes to an answer,
  -- and allows the cost exactly if it fits, a step is left and the run has not timed out.
  pub check_run-allowed :
      (now : ℕ) (cost : Money) (r : Run)
      → 0 < r.max_cost.micro_units
      → r.spent_cost.micro_units ≤ r.max_cost.micro_units
      → (answer : BudgetCheckResult) × ((check_run warns now cost r).0 ≡ ok answer)
        × (answer.allowed ≡ (
            leb (r.spent_cost.micro_units + cost.micro_units) r.max_cost.micro_units
            && (check_step_limit (some r) && check_timeout now (some r))))
  check_run-allowed now cost r positive spent =
      let total = money (r.spent_cost.micro_units + cost.micro_units) in
      rw (check_run_lem now cost r) (elim (Result-cases (check_cost warns now cost total r).0) [
        | inl (answer, eq) ↦ (answer, eq, check_cost-allowed now cost total r answer eq)
        | inr (e, eq) ↦
            absurd (ground (arith, check_cost-succeeded now cost total r positive spent))
      ])

  -- A check changes nothing of the run but its pending events.
  pub check_run-events :
      (now : ℕ) (cost : Money) (r : Run)
      → record (check_run warns now cost r).1 { events = [] } ≡ record r { events = [] }
  unfolding check_run check_cost check_warning check_progress Money.add Money.sub Money.new
      add_event
  check_run-events now cost r = ground arith

  check_cost-remaining :
      (now : ℕ) (cost total : Money) (r : Run) (answer : BudgetCheckResult)
      → (check_cost warns now cost total r).0 ≡ ok answer
      → answer.allowed ≡ true
      → total.micro_units + answer.remaining_budget.micro_units ≡ r.max_cost.micro_units
  unfolding check_cost check_warning check_progress add_event
  check_cost-remaining now cost total r answer eq allowed = ground (arith, sub_lem r.max_cost total)

  -- A cost that a check allows can be recorded on the run that the check leaves: it is then spent,
  -- and the budget that the answer calls remaining is what is left to the maximum.
  pub check_run-record_cost :
      (now now' : ℕ) (cost : Money) (r : Run) (answer : BudgetCheckResult)
      → (check_run warns now cost r).0 ≡ ok answer
      → answer.allowed ≡ true
      → let (result, after) = Methods.record_cost now' cost (check_run warns now cost r).1 in
        (result ≡ ok tt)
        × (after.spent_cost.micro_units ≡ r.spent_cost.micro_units + cost.micro_units)
        × (after.spent_cost.micro_units + answer.remaining_budget.micro_units
            ≡ r.max_cost.micro_units)
  check_run-record_cost now now' cost r answer eq allowed =
      let total = money (r.spent_cost.micro_units + cost.micro_units) in
      let left =
        check_cost-remaining now cost total r answer
          (ap (λ x. x.0) (sym (check_run_lem now cost r)) ∙ eq) allowed in
      let spent = ap (λ x. x.spent_cost.micro_units) (check_run-events now cost r) in
      let limit = ap (λ x. x.max_cost.micro_units) (check_run-events now cost r) in
      let (recorded, sum) =
        record_cost_lem now' cost (check_run warns now cost r).1
          (omega (arith, left, spent, limit)) in
      (recorded, omega (arith, sum, spent), omega (arith, sum, spent, left))
