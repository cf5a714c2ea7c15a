-- ===== src/Run/UseCases.antt =====
-- `RunUseCases` (app/application/use_cases/run.py) over the repository's table. The cost limit
-- arrives as micro-units, `int(max_cost_usd * 1_000_000)`; the id of a new run is a fresh UUID.
use aiagent_x.Common.{
  Bool, ℕ, String, true, Option, none, some, M, Result, ok, raise, ◌==◌, if◌then◌else◌,
}
use aiagent_x.Common.Int.{ℤ, pos}
use aiagent_x.Common.Value.{Value}
use aiagent_x.Money
use aiagent_x.Money.{money, Money, MoneyError}
use aiagent_x.RunState.{queued}
use aiagent_x.Run.Data.{Run, RunError, create}
use aiagent_x.Run.Methods.{cancel}
use aiagent_x.Run.Table.{
  RunRow, Table, Entity, RowError, get, get_by_idempotency_key, insert, update, spent_has_no_units,
}

pub data UseError : Type 0 where
  row_error : RowError → UseError
  run_error : RunError → UseError
  money_error : MoneyError → UseError

abbrev pub from_row : {A : Type 0} → Result RowError A × Table → Result UseError A × Table
from_row (ok a, t) = (ok a, t)
from_row (raise e, t) = (raise (row_error e), t)

-- A run that was just built holds a `Money`.
abbrev pub built : Run → Entity
built r = record { run = r; spent_is_money = true }

abbrev pub insert_new : (RunRow → Bool) → Result RunError Run → M Table UseError Entity
unfolding insert
insert_new accepts (raise e) t = (raise (run_error e), t)
insert_new accepts (ok r) t = from_row (insert accepts (built r) t)

unfoldable pub create_run :
    (accepts : RunRow → Bool)
    → (id now tenant_id agent_version_id : ℕ) → Value
    → String
    → ℤ
    → (max_cost : ℤ) → M Table UseError Entity
unfolding insert
create_run accepts id now tenant agent input key max_steps max_cost t =
    elim (get_by_idempotency_key tenant key t) [
      | raise e ↦ (raise (row_error e), t)
      | ok (some existing) ↦ (ok existing, t)
      | ok none ↦ elim (Money.new max_cost) [
        | raise e ↦ (raise (money_error e), t)
        | ok limit ↦
            insert_new accepts
              (create id now tenant agent input key (pos 0) max_steps limit 90 queued (money 0)) t
      ]
    ]

abbrev pub of_tenant : ℕ → Option Entity → Option Entity
of_tenant tenant none = none
of_tenant tenant (some e) = if e.run.tenant_id == tenant then some e else none

abbrev pub only_of : ℕ → Result RowError (Option Entity) → Result RowError (Option Entity)
only_of tenant (raise e) = raise e
only_of tenant (ok e) = ok (of_tenant tenant e)

unfoldable pub get_run : (id tenant : ℕ) → Table → Result RowError (Option Entity)
get_run id tenant t = only_of tenant (get id t)

abbrev pub found_again :
    ℕ → Result RowError (Unit {0}) × Table → Result UseError (Option Entity) × Table
found_again id (raise e, t) = (raise (row_error e), t)
found_again id (ok _, t) = elim (get id t) [ raise e ↦ (raise (row_error e), t) | ok e ↦ (ok e, t) ]

unfoldable pub save : Entity → Result RunError (Unit {0}) × Run → M Table UseError (Option Entity)
unfolding get update
save e (raise x, r) t = (raise (run_error x), t)
save e (ok _, r) t = found_again e.run.id (update (record e { run = r }) t)

unfoldable pub cancel_run :
    (now₁ now₂ id tenant : ℕ) → Option String → M Table UseError (Option Entity)
unfolding get_run cancel get update save
cancel_run now₁ now₂ id tenant reason t = elim (get_run id tenant t) [
  | raise e ↦ (raise (row_error e), t)
  | ok none ↦ (ok none, t)
  | ok (some e) ↦ save e (cancel now₁ now₂ reason e.run) t
]

-- What `get_run_status` reads of the run: its cost in micro-units, where that is a `Money`.
unfoldable pub get_run_status : (id tenant : ℕ) → Table → Result RowError (Option ℕ)
unfolding get_run
get_run_status id tenant t = elim (get_run id tenant t) [
  | raise e ↦ raise e
  | ok none ↦ ok none
  | ok (some e) ↦
      if e.spent_is_money then ok (some e.run.spent_cost.micro_units) else raise spent_has_no_units
]
