-- ===== src/Outbox.antt =====
-- The outbox: `OutboxEvent` (app/domain/entities/outbox.py), its table
-- (app/infrastructure/db/repositories/outbox.py) and the worker that empties it
-- (app/workers/outbox_flusher.py). The order of the rows is the order in which the database returns
-- them; `failure` tells which events cannot be processed, and how.
pub mod Drained
use aiagent_x.Common.{
  ℕ, zero, suc, ◌+◌, String, Bool, true, false, not, Option, none, some, is_some, List, [], ◌∷◌,
  ◌++◌, take, any, ltb, ◌==◌, ◌&&◌, ◌||◌, if◌then◌else◌,
}
use aiagent_x.Common.Text.{str_eq, contains}
use aiagent_x.Common.Value.{Value}

pub record OutboxEvent : Type 0 where
  pub id : ℕ
  pub created_at : ℕ
  pub updated_at : ℕ
  pub event_type : String
  pub aggregate_id : String
  pub aggregate_type : String
  pub payload : Value
  pub processed_at : Option ℕ
  pub retry_count : ℕ
  pub last_error : Option String

unfoldable pub create :
    (id now now' : ℕ) → (event_type aggregate_id aggregate_type : String) → Value → OutboxEvent
create id now now' event_type aggregate_id aggregate_type payload = record {
  id = id;
  created_at = now;
  updated_at = now';
  event_type = event_type;
  aggregate_id = aggregate_id;
  aggregate_type = aggregate_type;
  payload = payload;
  processed_at = none;
  retry_count = 0;
  last_error = none;
}

unfoldable pub mark_processed : (now now' : ℕ) → OutboxEvent → OutboxEvent
mark_processed now now' e = record e { processed_at = some now; updated_at = now' }

unfoldable pub mark_failed : ℕ → String → OutboxEvent → OutboxEvent
mark_failed now error e = record e {
  retry_count = e.retry_count + 1;
  last_error = some error;
  updated_at = now;
}

abbrev pub Table : Type 0
Table = List OutboxEvent

abbrev pub is_unprocessed : OutboxEvent → Bool
is_unprocessed e = not (is_some e.processed_at)

-- `delete_processed`: the rows that are left, and how many are not.
unfoldable pub delete_processed : ℕ → Table → ℕ × Table
delete_processed before [] = (0, [])
delete_processed before (e ∷ rows) =
    let (deleted, rest) = delete_processed before rows in
    elim e.processed_at [
      | none ↦ (deleted, e ∷ rest)
      | some t ↦ if ltb t before then (deleted + 1, rest) else (deleted, e ∷ rest)
    ]

-- What one flush selects.
abbrev pub is_audit : OutboxEvent → Bool
is_audit e = str_eq e.event_type "audit_log" && is_unprocessed e

module _ (failure : OutboxEvent → Option String) where
  -- One event of the batch, and whether it counts as processed.
  unfoldable pub process : (now now' : ℕ) → OutboxEvent → Bool × OutboxEvent
  unfolding mark_processed mark_failed
  process now now' e = elim (failure e) [
    | none ↦ (true, mark_processed now now' e)
    | some error ↦ (false, mark_failed now' error e)
  ]

  -- `_flush_audit_outbox_async` with `batch` for the size of a batch: how many events it processed,
  -- and the rows, where every other row stays as it is.
  unfoldable pub flush : (now now' batch : ℕ) → Table → ℕ × Table
  unfolding process
  flush now now' zero rows = (0, rows)
  flush now now' (suc batch) [] = (0, [])
  flush now now' (suc batch) (e ∷ rows) =
      let (done, e') = process now now' e in
      let (taken, after) = flush now now' batch rows in
      let (passed, rest) = flush now now' (suc batch) rows in
      if is_audit e then ((if done then 1 else 0) + taken, e' ∷ after) else (passed, e ∷ rest)

  unfoldable pub flush_audit_outbox :
      (audit_enabled : Bool) → (now now' batch : ℕ) → Table → ℕ × Table
  unfolding flush
  flush_audit_outbox audit_enabled now now' batch rows =
      if audit_enabled then flush now now' batch rows else (0, rows)

  -- The worker's loop, for a number of rounds; `clock` has the two readings of each round.
  unfoldable pub flush_rounds :
      (audit_enabled : Bool) → (rounds : ℕ) → (clock : ℕ → ℕ × ℕ) → (batch : ℕ) → Table → Table
  unfolding flush_audit_outbox
  flush_rounds audit_enabled zero clock batch rows = rows
  flush_rounds audit_enabled (suc rounds) clock batch rows =
      let (now, now') = clock rounds in
      flush_rounds audit_enabled rounds clock batch
        (flush_audit_outbox audit_enabled now now' batch rows).1

  -- `run_outbox_flusher`, which ends at once where auditing is off.
  unfoldable pub run_flusher :
      (audit_enabled : Bool) → (rounds : ℕ) → (clock : ℕ → ℕ × ℕ) → (batch : ℕ) → Table → Table
  unfolding flush_rounds
  run_flusher audit_enabled rounds clock batch rows =
      if audit_enabled then flush_rounds audit_enabled rounds clock batch rows else rows
