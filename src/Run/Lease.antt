-- ===== src/Run/Lease.antt =====
-- The worker lease of `Run.start` and `Run.renew_lease` (app/domain/entities/run.py). The expiry is
-- computed by replacing the seconds of the clock's reading, which Python refuses from 60 on.
use aiagent_x.Common.{
  ℕ, ◌+◌, ◌*◌, ◌-◌, ◌<◌, ◌≡◌, String, true, false, none, some, arith, ok, raise, ltb, if◌then◌else◌,
  succeeded,
}
use aiagent_x.Common.Text.{is_empty}
use aiagent_x.RunState.{running, can_transition_to}
use aiagent_x.Run.Data.{Run, second_out_of_range, touch, add_event}
use aiagent_x.Run.Methods.{
  start, set_lease_expiry, replace_second, second_of, is_lease_valid, default_lease_seconds,
}
use aiagent_x.Run.Lifecycle.{moved, transition_lem}

-- `start` of a run that may start: the run is RUNNING with its owner, and has a lease if the second
-- of the clock and the duration come to less than 60; else `start` raises, and leaves it RUNNING
-- with the lease that it had.
pub start_lem :
    (now₁ now₂ now₃ : ℕ) (owner : String) (duration : ℕ) (r : Run)
    → can_transition_to r.state running ≡ true
    → start now₁ now₂ now₃ owner duration r ≡ (
        let started = record (moved now₁ running none r) { lease_owner = some owner } in
        if ltb (second_of now₃ + duration) 60
        then (
          ok tt,
          record started {
            lease_expires_at =
                some (now₂ - second_of now₂ * 1000000 + (second_of now₃ + duration) * 1000000);
          },
        )
        else (raise second_out_of_range, started))
unfolding start set_lease_expiry replace_second add_event touch
start_lem now₁ now₂ now₃ owner duration r h = ground (arith, transition_lem now₁ running none r)

-- With the default lease of 300 seconds the start of a run that may start raises, and leaves the run
-- RUNNING and owned by the worker.
pub start_default_raises :
    (now₁ now₂ now₃ : ℕ) (owner : String) (r : Run)
    → can_transition_to r.state running ≡ true
    → (succeeded (start now₁ now₂ now₃ owner default_lease_seconds r).0 ≡ false)
      × ((start now₁ now₂ now₃ owner default_lease_seconds r).1.state ≡ running)
      × ((start now₁ now₂ now₃ owner default_lease_seconds r).1.lease_owner ≡ some owner)
unfolding start set_lease_expiry replace_second add_event touch
start_default_raises now₁ now₂ now₃ owner r h = ground (arith, transition_lem now₁ running none r)

-- A lease of a short duration, read within one second of the clock, is valid until it ends and not
-- after: with `start` at `now` and a duration that stays in the minute, `is_lease_valid` holds at
-- `later` exactly when `later` is before the expiry.
pub start-is_lease_valid :
    (now₁ now later : ℕ) (owner : String) (duration : ℕ) (r : Run)
    → can_transition_to r.state running ≡ true
    → is_empty owner ≡ false
    → second_of now + duration < 60
    → is_lease_valid later (start now₁ now now owner duration r).1
      ≡ ltb later (now + duration * 1000000)
unfolding is_lease_valid add_event touch second_of
start-is_lease_valid now₁ now later owner duration r h e d =
    ground (arith, start_lem now₁ now now owner duration r)
