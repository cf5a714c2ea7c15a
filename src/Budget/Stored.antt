-- ===== src/Budget/Stored.antt =====
-- Budget checks of the runs that the program's repository returns
-- (app/application/services/budget_service.py).
use aiagent_x.Common.{String, ℕ, ◌≡◌, refl, arith, Bool, Option, none, some, ok, raise}
use aiagent_x.Money.{Money, money}
use aiagent_x.Run.Table.{Entity, Table, get}
use aiagent_x.Run.Stored.{get-spent}
use aiagent_x.Budget.{
  get_remaining_budget, record_spent, check_run_budget, cost_is_a_number, refused,
}

-- For a run of which the table has no row, the check of a cost is refused and nothing remains. For any
-- run that is stored, whatever it has spent: the check and the remaining budget raise, and the run is
-- left as it was read.
pub stored_check_raises :
    (warns : ℕ → ℕ → Bool) (now i : ℕ) (cost : Money) (t : Table) (found : Option Entity)
    → get i t ≡ ok found
    → (check_run_budget warns now cost found ≡ elim found [
      | none ↦ (ok (refused "Run not found" (money 0)), none)
      | some e ↦ (raise cost_is_a_number, some e.run)
    ])
      × (get_remaining_budget found
          ≡ elim found [ none ↦ ok (money 0) | some e ↦ raise cost_is_a_number ])
unfolding check_run_budget get_remaining_budget
stored_check_raises warns now i cost t none h = (refl, refl)
stored_check_raises warns now i cost t (some e) h =
    (ground (arith, get-spent i t e h), ground (arith, get-spent i t e h))

-- Recording a cost on a stored run raises, too, before anything of it is changed or stored.
pub stored_spent_raises :
    (now i : ℕ) (cost : Money) (provider model : String) (t : Table) (e : Entity)
    → get i t ≡ ok (some e)
    → record_spent now cost provider model e ≡ (none, raise cost_is_a_number, e.run)
unfolding record_spent
stored_spent_raises now i cost provider model t e h = ground (arith, get-spent i t e h)
