-- ===== src/Tests/Storage.antt =====
-- A stored run (app/infrastructure/db/repositories/run.py, app/application/use_cases/run.py) and its
-- cancellation (app/application/services/cancellation_service.py).
use aiagent_x.Common.{ℕ, ◌≡◌, refl, true, false, none, some, [], ◌∷◌, ◌==◌, ok, raise}
use aiagent_x.Run.Data.{create, add_event}
use aiagent_x.Run.Table
use aiagent_x.Run.Table.{RunRow, Entity, loaded, row_of, spent_has_no_units}
use aiagent_x.Run.UseCases.{get_run, cancel_run, get_run_status, row_error}
use aiagent_x.Run.Stored.{stored_run_raises}
use aiagent_x.RunState.{is_terminal}
use aiagent_x.Redis.{Redis, table}
use aiagent_x.Cancellation.{World, repository_error, request_cancellation}
use aiagent_x.Cancellation.Flags.{sql, request_raises}
use aiagent_x.Tests.Runs.{new_run}

abbrev pub stored_row : RunRow
unfolding row_of
stored_row = row_of new_run

abbrev pub stored_entity : Entity
stored_entity = record { run = record new_run { timeout_seconds = 90 }; spent_is_money = false }

abbrev pub stored_table : Table.Table
stored_table = stored_row ∷ []

get_stored : get_run 1 7 stored_table ≡ ok (some stored_entity)
unfolding get_run Table.get Table.to_entity row_of create add_event
get_stored = refl

stored_run_raises_example :
    ((cancel_run 6000000 6000001 1 7 none stored_table).0 ≡ raise (row_error spent_has_no_units))
    × (get_run_status 1 7 stored_table ≡ raise spent_has_no_units)
stored_run_raises_example =
    stored_run_raises 6000000 6000001 1 7 none stored_table stored_entity get_stored

abbrev flags : Redis ℕ (Unit {0}) ◌==◌
flags = table ℕ (Unit {0}) ◌==◌

abbrev world : World sql flags
world = record { runs = stored_table; flags = λ k. none; published = [] }

request_raises_example :
    let (answer, after) = request_cancellation sql flags true true 6 7 1 none world in
    (answer ≡ raise (repository_error spent_has_no_units))
    × (after.flags ≡ world.flags)
    × (after.published ≡ world.published)
unfolding Table.get Table.to_entity row_of create add_event is_terminal
request_raises_example = request_raises flags true true 6 7 1 none world stored_entity refl refl
