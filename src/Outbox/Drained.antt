-- ===== src/Outbox/Drained.antt =====
-- What the worker makes of the outbox (app/workers/outbox_flusher.py).
use aiagent_x.Common.{
  ℕ, String, zero, suc, ◌+◌, ◌*◌, ◌≤◌, ◌≡◌, refl, true, false, arith, min, Option, none, [], ◌∷◌,
  if◌then◌else◌,
}
use aiagent_x.Outbox.{
  OutboxEvent, Table, is_audit, mark_processed, process, flush, flush_audit_outbox, flush_rounds,
  run_flusher,
}

-- The audit events that wait.
unfoldable pub waiting : Table → ℕ
waiting [] = 0
waiting (e ∷ rows) = (if is_audit e then 1 else 0) + waiting rows

-- No event fails.
abbrev pub never_fails : OutboxEvent → Option String
never_fails e = none

flush_counts :
    (now now' batch : ℕ) (rows : Table)
    → let (done, after) = flush never_fails now now' batch rows in
      (done ≡ min batch (waiting rows)) × (done + waiting after ≡ waiting rows)
unfolding flush process waiting mark_processed
flush_counts now now' zero rows = ground arith
flush_counts now now' (suc batch) [] = ground arith
flush_counts now now' (suc batch) (e ∷ rows) =
    ground (arith, flush_counts now now' batch rows, flush_counts now now' (suc batch) rows)

flush_rounds_drains :
    (rounds : ℕ) (clock : ℕ → ℕ × ℕ) (batch : ℕ) (rows : Table)
    → waiting rows ≤ rounds * batch
    → waiting (flush_rounds never_fails true rounds clock batch rows) ≡ 0
unfolding flush_rounds flush_audit_outbox
flush_rounds_drains zero clock batch rows h = omega (arith, h)
flush_rounds_drains (suc rounds) clock batch rows h =
    let (now, now') = clock rounds in
    flush_rounds_drains rounds clock batch (flush never_fails now now' batch rows).1
      (omega (arith, h, flush_counts now now' batch rows))

-- Where no event fails, as is so for the worker's empty processing: with auditing on, rounds enough for
-- all waiting audit events, at the size of a batch each, leave none waiting; with auditing off, no
-- number of rounds changes the outbox.
pub run_flusher_drains :
    (rounds : ℕ) (clock : ℕ → ℕ × ℕ) (batch : ℕ) (rows : Table)
    → waiting rows ≤ rounds * batch
    → (waiting (run_flusher never_fails true rounds clock batch rows) ≡ 0)
      × (run_flusher never_fails false rounds clock batch rows ≡ rows)
unfolding run_flusher
run_flusher_drains rounds clock batch rows h = (flush_rounds_drains rounds clock batch rows h, refl)
