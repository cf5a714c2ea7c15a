-- ===== src/Run/Log.antt =====
-- The events of a run, read as its history (app/domain/entities/run.py).
pub mod Methods
use aiagent_x.Common.{
  ℕ, ◌+◌, ◌≡◌, refl, Bool, true, false, String, Option, none, some, List, [], ◌∷◌, ◌++◌, arith, ok,
  raise, not, ◌&&◌, if◌then◌else◌, ◌*◌, ◌/◌, leb, length, any, Bool-cases, inl, inr,
}
use aiagent_x.Common.Int.{ℤ, pos, negsuc, pos_part}
use aiagent_x.Common.Value.{Value}
use aiagent_x.RunState.{
  RunState, RunStepKind, queued, running, awaiting_approval, retry_scheduled, succeeded, failed,
  cancelled, timed_out, is_terminal, can_transition_to, state_eq,
}
use aiagent_x.Money.{Money, TokenUsage}
use aiagent_x.Run.Data.{
  Run, RunEvent, run_state_changed, run_completed, run_failed, run_cancelled, run_timed_out, touch,
  add_event, create,
}
use aiagent_x.Run.Methods.{
  transition, start, set_lease_expiry, request_approval, resume_from_approval, schedule_retry,
  requeue, complete, fail, cancel, timeout, renew_lease, add_step, record_cost, record_token_usage,
  has_sequence,
}
use aiagent_x.Run.Lifecycle.{moved, transition_lem}
use aiagent_x.Run.Calls.{Call, apply, apply_all}

-- A reader of the events: the state they lead to, the retries they record, and how many of them
-- announce an end of the run. `none` if a recorded transition does not start where the run is, or
-- is not one of the listed ones.
pub record History : Type 0 where
  pub state : RunState
  pub retries : ℕ
  pub endings : ℕ

abbrev pub retry_count : RunState → ℕ
retry_count retry_scheduled = 1
retry_count _ = 0

abbrev pub read : Option History → RunEvent → Option History
read none e = none
read (some h) (run_state_changed t a old new reason) =
    if state_eq old h.state && can_transition_to old new
    then some (record h { state = new; retries = h.retries + retry_count new })
    else none
read (some h) (run_completed t a output cost steps) = some (record h { endings = h.endings + 1 })
read (some h) (run_failed t a error failed_step) = some (record h { endings = h.endings + 1 })
read (some h) (run_cancelled t a reason) = some (record h { endings = h.endings + 1 })
read (some h) (run_timed_out t a last_state) = some (record h { endings = h.endings + 1 })
read (some h) _ = some h

unfoldable pub read_all : Option History → List RunEvent → Option History
read_all h [] = h
read_all h (e ∷ events) = read_all (read h e) events

abbrev pub ending_count : RunState → ℕ
ending_count s = if is_terminal s then 1 else 0

-- The history of a run that is created in a state; an end that it is created in counts as announced.
abbrev pub start_of_history : RunState → Option History
start_of_history s = some (record { state = s; retries = 0; endings = ending_count s })

-- Where the reading of the pending events begins: the attempts of the run's creation, and the history
-- that the collected events came to.
pub record Origin : Type 0 where
  pub attempts : ℕ
  pub past : Option History

-- The pending events tell the state of a run; `lag` attempts and `due` announcements of an end are
-- still to come from the method that is under way.
abbrev pub Lags : Origin → (lag due : ℕ) → Run → Type 0
Lags origin lag due r =
    (h : History) × (read_all origin.past r.events ≡ some h)
    × (h.state ≡ r.state)
    × (origin.attempts + h.retries ≡ r.attempt + lag)
    × (h.endings + due ≡ ending_count r.state)

-- The events of a log, since the run's creation in a state and with `first` attempts, tell its state and
-- its attempts, and announce exactly one end if the state is terminal, else none.
abbrev pub IsLogged : (first : ℕ) → RunState → List RunEvent → Run → Type 0
IsLogged first state log r =
    (h : History) × (read_all (start_of_history state) log ≡ some h)
    × (h.state ≡ r.state)
    × (first + h.retries ≡ r.attempt)
    × (h.endings ≡ ending_count r.state)

pub read_all-append :
    (h : Option History) (events more : List RunEvent)
    → read_all h (events ++ more) ≡ read_all (read_all h events) more
unfolding read_all
read_all-append h [] more = refl
read_all-append h (d ∷ events) more = read_all-append (read h d) events more

pub read_all-snoc :
    (h : Option History) (events : List RunEvent) (e : RunEvent)
    → read_all h (events ++ e ∷ []) ≡ read (read_all h events) e
unfolding read_all
read_all-snoc h [] e = refl
read_all-snoc h (d ∷ events) e = read_all-snoc (read h d) events e

abbrev pub is_ending : RunEvent → ℕ
is_ending (run_completed t a output cost steps) = 1
is_ending (run_failed t a error failed_step) = 1
is_ending (run_cancelled t a reason) = 1
is_ending (run_timed_out t a last_state) = 1
is_ending _ = 0

pub Lags-moved :
    (origin : Origin) (now : ℕ) (s : RunState) (reason : Option String) (r : Run)
    → can_transition_to r.state s ≡ true
    → Lags origin 0 0 r
    → Lags origin (retry_count s) (ending_count s) (moved now s reason r)
unfolding add_event touch can_transition_to is_terminal
Lags-moved origin now s reason r c (h, e, p, q, n) = (
  record h { state = s; retries = h.retries + retry_count s },
  rw (read_all-snoc, e) (ground arith),
  refl,
  ground arith,
  ground arith,
)

pub Lags-ending :
    (origin : Origin) (lag : ℕ) (e : RunEvent) (r : Run)
    → is_ending e ≡ 1
    → Lags origin lag 1 r
    → Lags origin lag 0 (add_event e r)
unfolding add_event
Lags-ending origin lag e r c (h, eq, p, q, n) = (
  record h { endings = h.endings + 1 },
  rw (read_all-snoc, eq) (ground arith),
  ground arith,
  ground arith,
  ground arith,
)
