-- ===== src/Run/Stored.antt =====
-- What the table keeps of a run (app/infrastructure/db/repositories/run.py, app/application/use_cases/run.py).
use aiagent_x.Common.{
  ℕ, ◌≡◌, String, Bool, true, false, Option, none, some, List, [], ◌∷◌, ◌++◌, arith, Result, ok,
  raise, find, is_some,
}
use aiagent_x.RunState.{is_terminal, can_transition_to}
use aiagent_x.Run.Data.{Run, add_event, touch, RunError, create}
use aiagent_x.Run.Methods.{cancel, transition}
use aiagent_x.Run.Table.{
  RunRow, Entity, Table, RowError, spent_has_no_units, has_id, to_entity, entity_of, get, update,
}
use aiagent_x.Run.UseCases.{
  get_run, cancel_run, get_run_status, row_error, of_tenant, save, found_again, only_of,
}

pub find-append :
    {A : Type 0} (p : A → Bool) (xs : List A) (x : A)
    → find p xs ≡ none
    → p x ≡ true
    → find p (xs ++ x ∷ []) ≡ some x
find-append p [] x h h' = ground arith
find-append p (y ∷ xs) x h h' = ground (arith, find-append p xs x)

-- Reads of the table never give a run whose cost is a `Money`.
to_entity-spent : (row : RunRow) (e : Entity) → to_entity row ≡ ok e → e.spent_is_money ≡ false
unfolding to_entity create
to_entity-spent row e h = ground arith

to_entity-id : (row : RunRow) (e : Entity) → to_entity row ≡ ok e → e.run.id ≡ row.id
unfolding to_entity create add_event
to_entity-id row e h = ground arith

entity_of-spent :
    (o : Option RunRow) (e : Entity) → entity_of o ≡ ok (some e) → e.spent_is_money ≡ false
unfolding to_entity create add_event
entity_of-spent none e h = ground arith
entity_of-spent (some row) e h = ground arith

entity_of-id :
    (i : ℕ) (t : Table) (e : Entity) → entity_of (find (has_id i) t) ≡ ok (some e) → e.run.id ≡ i
unfolding to_entity create add_event
entity_of-id i [] e h = ground arith
entity_of-id i (row ∷ t) e h = ground (arith, entity_of-id i t e)

entity_of-found : (o : Option RunRow) (e : Entity) → entity_of o ≡ ok (some e) → is_some o ≡ true
unfolding to_entity
entity_of-found none e h = ground arith
entity_of-found (some row) e h = ground arith

update_unsaved :
    (e : Entity) (t : Table)
    → e.spent_is_money ≡ false
    → is_some (find (has_id e.run.id) t) ≡ true
    → (update e t).0 ≡ raise spent_has_no_units
unfolding update
update_unsaved e t h h' = ground arith

pub get-spent : (i : ℕ) (t : Table) (e : Entity) → get i t ≡ ok (some e) → e.spent_is_money ≡ false
unfolding get
get-spent i t e h = entity_of-spent (find (has_id i) t) e h

-- A run that was read from the table cannot be saved: whatever was done to it, short of replacing
-- its id, `update` raises.
pub stored_update_raises :
    (i : ℕ) (t : Table) (e : Entity) (r : Run)
    → get i t ≡ ok (some e)
    → r.id ≡ e.run.id
    → (update (record e { run = r }) t).0 ≡ raise spent_has_no_units
unfolding get
stored_update_raises i t e r h same = ground (
  arith,
  update_unsaved (record e { run = r }) t,
  entity_of-spent (find (has_id i) t) e h,
  entity_of-id i t e h,
  entity_of-found (find (has_id i) t) e h,
)

cancel_lem :
    (now₁ now₂ : ℕ) (reason : Option String) (r : Run)
    → ((cancel now₁ now₂ reason r).0 ≡ ok tt) × ((cancel now₁ now₂ reason r).1.id ≡ r.id)
unfolding cancel transition is_terminal can_transition_to touch add_event
cancel_lem now₁ now₂ reason r = ground arith

of_tenant-some :
    (tenant : ℕ) (o : Option Entity) (e : Entity)
    → of_tenant tenant o ≡ some e
    → (o ≡ some e) × (e.run.tenant_id ≡ tenant)
of_tenant-some tenant none e h = ground arith
of_tenant-some tenant (some x) e h = ground arith

get_run-get :
    (id tenant : ℕ) (t : Table) (e : Entity)
    → get_run id tenant t ≡ ok (some e)
    → (get id t ≡ ok (some e)) × (e.run.tenant_id ≡ tenant)
unfolding get_run
get_run-get id tenant t e h = of_get (get id t) h
  where
    of_get :
        (x : Result RowError (Option Entity))
        → only_of tenant x ≡ ok (some e)
        → (x ≡ ok (some e)) × (e.run.tenant_id ≡ tenant)
    of_get (raise x) h = ground arith
    of_get (ok o) h = ground (arith, of_tenant-some tenant o e)

found_again-raise :
    (id : ℕ) (x : Result RowError (Unit {0}) × Table) (e : RowError)
    → x.0 ≡ raise e
    → (found_again id x).0 ≡ raise (row_error e)
found_again-raise id (ok _, t) e h = ground arith
found_again-raise id (raise x, t) e h = ground arith

save-raise :
    (e : Entity) (t : Table) (x : Result RunError (Unit {0}) × Run)
    → x.0 ≡ ok tt
    → (update (record e { run = x.1 }) t).0 ≡ raise spent_has_no_units
    → (save e x t).0 ≡ raise (row_error spent_has_no_units)
unfolding save
save-raise e t (raise _, r) k h = ground arith
save-raise e t (ok _, r) k h =
    found_again-raise e.run.id (update (record e { run = r }) t) spent_has_no_units h

-- A tenant can neither cancel a run that is stored, in any state, nor read its status: both raise.
pub stored_run_raises :
    (now₁ now₂ id tenant : ℕ) (reason : Option String) (t : Table) (e : Entity)
    → get_run id tenant t ≡ ok (some e)
    → ((cancel_run now₁ now₂ id tenant reason t).0 ≡ raise (row_error spent_has_no_units))
      × (get_run_status id tenant t ≡ raise spent_has_no_units)
unfolding cancel_run get_run_status
stored_run_raises now₁ now₂ id tenant reason t e h =
    let found = (get_run-get id tenant t e h).0 in
    let lem = cancel_lem now₁ now₂ reason e.run in
    let saved =
      save-raise e t (cancel now₁ now₂ reason e.run) lem.0
        (stored_update_raises id t e (cancel now₁ now₂ reason e.run).1 found lem.1) in
    ground (arith, h, saved, get-spent id t e found)
