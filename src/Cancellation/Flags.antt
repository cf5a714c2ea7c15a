-- ===== src/Cancellation/Flags.antt =====
-- What a request of cancellation leaves behind (app/application/services/cancellation_service.py).
use aiagent_x.Common.{ℕ, ◌≡◌, arith, String, Bool, false, Option, some, ok, raise, ◌==◌}
use aiagent_x.RunState.{is_terminal}
use aiagent_x.Run.Table.{Table, Entity, RowError, spent_has_no_units}
use aiagent_x.Run.Table
use aiagent_x.Run.Stored.{stored_update_raises}
use aiagent_x.Redis.{Redis}
use aiagent_x.Cancellation.{RunRepository, World, repository_error, request_cancellation}

-- The repository of the program.
abbrev pub sql : RunRepository RowError
sql = record { Store = Table; get = Table.get; update = Table.update }

module _ (redis : Redis ℕ (Unit {0}) ◌==◌) where
  -- With the program's repository, a request for any stored run that is not terminal raises, sets
  -- no flag and publishes nothing.
  pub request_raises :
      (up₁ up₂ : Bool) (now now' id : ℕ) (reason : Option String) (w : World sql redis) (e : Entity)
      → Table.get id w.runs ≡ ok (some e)
      → is_terminal e.run.state ≡ false
      → let (answer, after) = request_cancellation sql redis up₁ up₂ now now' id reason w in
        (answer ≡ raise (repository_error spent_has_no_units))
        × (after.flags ≡ w.flags)
        × (after.published ≡ w.published)
  unfolding request_cancellation
  request_raises up₁ up₂ now now' id reason w e found active = ground (
    arith,
    found,
    active,
    stored_update_raises id w.runs e (record e.run { cancel_requested_at = some now }) found,
  )
