-- ===== src/Run/Table.antt =====
-- `SQLRunRepository` (app/infrastructure/db/repositories/run.py) over the table `runs`
-- (app/infrastructure/db/models/run.py): the list of its rows, each with the rows of its steps.
-- `update`'s return value, which no caller here reads, is left out.
use aiagent_x.Common.{
  ℕ, String, Bool, false, Option, none, some, List, [], ◌∷◌, ◌++◌, M, Result, ok, raise, find,
  is_some, ◌==◌, ◌&&◌, ◌||◌, not, if◌then◌else◌,
}
use aiagent_x.Common.Int.{pos}
use aiagent_x.Common.Text.{is_empty, str_eq}
use aiagent_x.Common.Value.{Value}
use aiagent_x.Money.{money}
use aiagent_x.RunState.{RunState}
use aiagent_x.Run.Data.{Run, RunStep, RunError, create}

pub record RunRow : Type 0 where
  pub id : ℕ
  pub tenant_id : ℕ
  pub agent_version_id : ℕ
  pub state : RunState
  pub input_data : Value
  pub output_data : Option Value
  pub idempotency_key : String
  pub attempt : ℕ
  pub max_steps : ℕ
  pub max_cost_microunits : ℕ
  pub spent_cost_microunits : ℕ
  pub lease_owner : Option String
  pub lease_expires_at : Option ℕ
  pub cancel_requested_at : Option ℕ
  pub created_at : ℕ
  pub updated_at : ℕ
  pub steps : List RunStep

-- A run as Python holds it: what stands in its field `spent_cost` may also be an `int`, which has
-- no `micro_units`.
pub record Entity : Type 0 where
  pub run : Run
  pub spent_is_money : Bool

abbrev pub Table : Type 0
Table = List RunRow

pub data RowError : Type 0 where
  invalid_row : RunError → RowError
  no_such_run duplicate_run rejected_row spent_has_no_units steps_not_loaded : RowError

-- `if model.lease_owner`.
abbrev pub owner_of : Option String → Option String
owner_of none = none
owner_of (some owner) = if is_empty owner then none else some owner

abbrev pub loaded : RunRow → Run → Entity
loaded row r = record {
  spent_is_money = false;
  run = record r {
    created_at = row.created_at;
    output_data = row.output_data;
    max_cost = money row.max_cost_microunits;
    lease_owner = owner_of row.lease_owner;
    lease_expires_at = row.lease_expires_at;
    cancel_requested_at = row.cancel_requested_at;
    steps = row.steps;
  };
}

-- `_to_entity`: the constructor runs with the default limit of cost and the default timeout, and
-- is given the number of the row as the cost spent.
unfoldable pub to_entity : RunRow → Result RowError Entity
to_entity row =
    elim (create row.id row.updated_at row.tenant_id row.agent_version_id row.input_data
      row.idempotency_key (pos row.attempt) (pos row.max_steps) (money 10000000) 90 row.state
      (money row.spent_cost_microunits)) [
        | raise e ↦ raise (invalid_row e)
        | ok r ↦ ok (loaded row r)
      ]

-- `_to_model`; the rows of the steps are written by `add_step`.
unfoldable pub row_of : Run → RunRow
row_of r = record {
  id = r.id;
  tenant_id = r.tenant_id;
  agent_version_id = r.agent_version_id;
  state = r.state;
  input_data = r.input_data;
  output_data = r.output_data;
  idempotency_key = r.idempotency_key;
  attempt = r.attempt;
  max_steps = r.max_steps;
  max_cost_microunits = r.max_cost.micro_units;
  spent_cost_microunits = r.spent_cost.micro_units;
  lease_owner = r.lease_owner;
  lease_expires_at = r.lease_expires_at;
  cancel_requested_at = r.cancel_requested_at;
  created_at = r.created_at;
  updated_at = r.updated_at;
  steps = [];
}

abbrev pub has_id : ℕ → RunRow → Bool
has_id i row = row.id == i

abbrev pub has_key : ℕ → String → RunRow → Bool
has_key tenant key row = row.tenant_id == tenant && str_eq row.idempotency_key key

abbrev pub entity_of : Option RunRow → Result RowError (Option Entity)
entity_of none = ok none
entity_of (some row) = elim (to_entity row) [ raise e ↦ raise e | ok e ↦ ok (some e) ]

unfoldable pub get : ℕ → Table → Result RowError (Option Entity)
unfolding to_entity
get i rows = entity_of (find (has_id i) rows)

unfoldable pub get_by_idempotency_key : ℕ → String → Table → Result RowError (Option Entity)
unfolding to_entity
get_by_idempotency_key tenant key rows = entity_of (find (has_key tenant key) rows)

-- `create`. The flush writes the row, unless the database refuses it: by the primary key or the unique
-- pair of tenant and key, or by what `accepts` stands for, the foreign keys and the column of two bytes
-- for `max_steps`. `_to_entity` then reads `model.steps`, which a flushed row has not loaded and an
-- asynchronous session does not load on access (SQLAlchemy's `MissingGreenlet`).
unfoldable pub insert : (accepts : RunRow → Bool) → Entity → M Table RowError Entity
unfolding row_of
insert accepts e rows =
    if not e.spent_is_money
    then (raise spent_has_no_units, rows)
    else if is_some (find (has_id e.run.id) rows)
        || is_some (find (has_key e.run.tenant_id e.run.idempotency_key) rows)
    then (raise duplicate_run, rows)
    else if not (accepts (row_of e.run))
    then (raise rejected_row, rows)
    else (raise steps_not_loaded, rows ++ row_of e.run ∷ [])

-- The assignments of `update` before the one that reads `run.spent_cost`, and all of them.
abbrev pub assign_first : Run → RunRow → RunRow
assign_first r row = record row {
  state = r.state;
  output_data = r.output_data;
  attempt = r.attempt;
}

unfoldable pub assign : Run → RunRow → RunRow
assign r row = record (assign_first r row) {
  spent_cost_microunits = r.spent_cost.micro_units;
  lease_owner = r.lease_owner;
  lease_expires_at = r.lease_expires_at;
  cancel_requested_at = r.cancel_requested_at;
  updated_at = r.updated_at;
}

unfoldable pub change_row : ℕ → (RunRow → RunRow) → Table → Table
change_row i f [] = []
change_row i f (row ∷ rows) = if has_id i row then f row ∷ rows else row ∷ change_row i f rows

-- Where it raises at `spent_cost`, the session still holds what was assigned before.
unfoldable pub update : Entity → M Table RowError (Unit {0})
unfolding change_row assign
update e rows = elim (find (has_id e.run.id) rows) [
  | none ↦ (raise no_such_run, rows)
  | some _ ↦
      if e.spent_is_money
      then (ok tt, change_row e.run.id (assign e.run) rows)
      else (raise spent_has_no_units, change_row e.run.id (assign_first e.run) rows)
]
