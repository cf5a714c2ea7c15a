-- ===== src/Tests/Budgets.antt =====
-- Budget checks of a stored run (app/application/services/budget_service.py).
use aiagent_x.Common.{ℕ, ◌*◌, ◌≡◌, refl, Bool, some, leb, raise}
use aiagent_x.Money.{money}
use aiagent_x.Run.Data.{create, add_event}
use aiagent_x.Run.Table
use aiagent_x.Run.Table.{row_of}
use aiagent_x.Budget.{get_remaining_budget, check_run_budget, cost_is_a_number}
use aiagent_x.Budget.Stored.{stored_check_raises}
use aiagent_x.Tests.Storage.{stored_table, stored_entity}

-- The warning at four fifths.
abbrev at_four_fifths : ℕ → ℕ → Bool
at_four_fifths spent max = leb (4 * max) (5 * spent)

stored_check_raises_example :
    (check_run_budget at_four_fifths 10000000 (money 50) (some stored_entity)
      ≡ (raise cost_is_a_number, some stored_entity.run))
    × (get_remaining_budget (some stored_entity) ≡ raise cost_is_a_number)
unfolding Table.get Table.to_entity row_of create add_event
stored_check_raises_example =
    stored_check_raises at_four_fifths 10000000 1 (money 50) stored_table (some stored_entity) refl
