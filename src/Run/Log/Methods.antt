-- ===== src/Run/Log/Methods.antt =====
-- What each method of `Run` (app/domain/entities/run.py) adds to the log of events.
use aiagent_x.Common.{
  sym, ◌∙◌, ◌++◌, ℕ, ◌≡◌, refl, String, Option, none, some, List, [], ◌∷◌, arith, ok, ◌*◌, ◌/◌, leb,
  length, any, Bool-cases, inl, inr,
}
use aiagent_x.Common.Int.{ℤ, pos, negsuc, pos_part}
use aiagent_x.Common.Value.{Value}
use mathlib.Core.Path.{subst}
use aiagent_x.RunState.{
  RunState, RunStepKind, queued, running, awaiting_approval, retry_scheduled, succeeded, failed,
  cancelled, timed_out, is_terminal, can_transition_to,
}
use aiagent_x.Money.{Money, TokenUsage}
use aiagent_x.Run.Data.{RunEvent, collect_events, Run, touch, add_event, create}
use aiagent_x.Run.Methods.{
  transition, start, set_lease_expiry, request_approval, resume_from_approval, schedule_retry,
  requeue, complete, fail, cancel, timeout, renew_lease, add_step, record_cost, record_token_usage,
  has_sequence,
}
use aiagent_x.Run.Lifecycle.{moved, transition_lem}
use aiagent_x.Run.Calls.{collected, published, Call, apply, apply_all}
use aiagent_x.Run.Log.{
  read_all, read_all-snoc, retry_count, ending_count, start_of_history, Origin, read_all-append,
  Lags, IsLogged, Lags-moved, Lags-ending,
}

-- A method whose transition is refused keeps the log; else it adds to it.
module _ (origin : Origin) (now : ℕ) (s : RunState) (reason : Option String) (r : Run) where
  transition-logs :
      retry_count s ≡ 0
      → ending_count s ≡ 0
      → Lags origin 0 0 r
      → Lags origin 0 0 (transition now s reason r).1
  unfolding add_event touch
  transition-logs a b h = elim (Bool-cases (can_transition_to r.state s)) [
    | inl listed ↦
        rw (transition_lem now s reason r, listed)
          (let l = Lags-moved origin now s reason r listed h in
            (l.0, l.1, l.2, ground arith, ground arith))
    | inr refused ↦ rw (transition_lem now s reason r, refused) h
  ]

complete-logs :
    (origin : Origin) (now : ℕ) (v : Value) (r : Run)
    → Lags origin 0 0 r
    → Lags origin 0 0 (complete now v r).1
unfolding complete add_event touch
complete-logs origin now v r h = elim (Bool-cases (can_transition_to r.state succeeded)) [
  | inl listed ↦
      rw (transition_lem now succeeded none r, listed)
        (Lags-ending origin 0 _ (record (moved now succeeded none r) { output_data = some v }) refl
          (unfold is_terminal in Lags-moved origin now succeeded none r listed h))
  | inr refused ↦ rw (transition_lem now succeeded none r, refused) h
]

fail-logs :
    (origin : Origin) (now : ℕ) (e : String) (k : Option ℕ) (r : Run)
    → Lags origin 0 0 r
    → Lags origin 0 0 (fail now e k r).1
unfolding fail add_event touch
fail-logs origin now e k r h = elim (Bool-cases (can_transition_to r.state failed)) [
  | inl listed ↦
      rw (transition_lem now failed (some e) r, listed)
        (Lags-ending origin 0 _ (moved now failed (some e) r) refl
          (unfold is_terminal in Lags-moved origin now failed (some e) r listed h))
  | inr refused ↦ rw (transition_lem now failed (some e) r, refused) h
]

timeout-logs :
    (origin : Origin) (now : ℕ) (r : Run) → Lags origin 0 0 r → Lags origin 0 0 (timeout now r).1
unfolding timeout add_event touch
timeout-logs origin now r h = elim (Bool-cases (is_terminal r.state)) [
  | inl over ↦ rw over h
  | inr live ↦ elim (Bool-cases (can_transition_to r.state timed_out)) [
    | inl listed ↦
        rw (live, transition_lem now timed_out none r, listed)
          (Lags-ending origin 0 _ (moved now timed_out none r) refl
            (unfold is_terminal in Lags-moved origin now timed_out none r listed h))
    | inr refused ↦ rw (live, transition_lem now timed_out none r, refused) h
  ]
]

schedule_retry-logs :
    (origin : Origin) (now : ℕ) (r : Run)
    → Lags origin 0 0 r
    → Lags origin 0 0 (schedule_retry now r).1
unfolding schedule_retry add_event touch
schedule_retry-logs origin now r h = elim (Bool-cases (can_transition_to r.state retry_scheduled)) [
  | inl listed ↦
      rw (transition_lem now retry_scheduled none r, listed)
        (let l = Lags-moved origin now retry_scheduled none r listed h in
          unfold is_terminal in (l.0, l.1, l.2, ground arith, ground arith))
  | inr refused ↦ rw (transition_lem now retry_scheduled none r, refused) h
]

cancel-logs :
    (origin : Origin) (a b : ℕ) (reason : Option String) (r : Run)
    → Lags origin 0 0 r
    → Lags origin 0 0 (cancel a b reason r).1
unfolding cancel add_event touch
cancel-logs origin a b reason r h = elim (Bool-cases (is_terminal r.state)) [
  | inl over ↦ rw over h
  | inr live ↦
      let asked = record r { cancel_requested_at = some a } in
      elim (Bool-cases (can_transition_to r.state cancelled)) [
        | inl listed ↦
            rw (live, transition_lem b cancelled reason asked, listed)
              (Lags-ending origin 0 _ (moved b cancelled reason asked) refl
                (unfold is_terminal in Lags-moved origin b cancelled reason asked listed h))
        | inr refused ↦ rw (live, transition_lem b cancelled reason asked, refused) h
      ]
]

-- What a log is about is the same in both runs.
record SameLog (r r' : Run) : Type 0 where
  events : r'.events ≡ r.events
  state : r'.state ≡ r.state
  attempt : r'.attempt ≡ r.attempt

Lags-same : (origin : Origin) {r r' : Run} → SameLog r r' → Lags origin 0 0 r → Lags origin 0 0 r'
Lags-same origin s (h, e, p, q, n) = (h, rw s.events e, rw s.state p, rw s.attempt q, rw s.state n)

start-same :
    (a b c : ℕ) (o : String) (d : ℕ) (r : Run)
    → SameLog (transition a running none r).1 (start a b c o d r).1
unfolding start set_lease_expiry
start-same a b c o d r = ground arith

renew_lease-same :
    (a b c : ℕ) (o : String) (d : ℕ) (r : Run) → SameLog r (renew_lease a b c o d r).1
unfolding renew_lease set_lease_expiry touch
renew_lease-same a b c o d r = ground arith

record_cost-same : (now : ℕ) (m : Money) (r : Run) → SameLog r (record_cost now m r).1
unfolding record_cost touch
record_cost-same now m r = ground arith

record_token_usage-same :
    (now : ℕ) (u : TokenUsage) (r : Run) → SameLog r (record_token_usage now u r).1
unfolding record_token_usage
record_token_usage-same now u r =
    ground (arith, record_cost-same now (record { micro_units = u.total_tokens * 10 / 1000 }) r)

add_step-logs :
    (origin : Origin) (id now : ℕ) (q : ℤ) (k : RunStepKind) (d : Option Value) (r : Run)
    → Lags origin 0 0 r
    → Lags origin 0 0 (add_step id now q k d r).1
unfolding add_step add_event
add_step-logs origin id now (negsuc q) k d r l =
    let same : SameLog r (add_step id now (negsuc q) k d r).1 = ground arith in
    Lags-same origin same l
add_step-logs origin id now (pos q) k d r (h, e, p, t, n) =
    elim (Bool-cases (leb r.max_steps (length r.steps))) [
      | inl full ↦ rw full (h, e, p, t, n)
      | inr room ↦ elim (Bool-cases (any (has_sequence (pos q)) r.steps)) [
        | inl old ↦ rw (room, old) (h, e, p, t, n)
        | inr fresh ↦ rw (room, fresh) (h, rw (read_all-snoc, e) refl, p, t, n)
      ]
    ]

-- The reading goes on behind events that were handed out.
abbrev after_collect : Origin → List RunEvent → Origin
after_collect origin events = record {
  attempts = origin.attempts;
  past = read_all origin.past events;
}

-- Every call keeps the log faithful, whether it returns or raises.
pub apply-IsLogged :
    (origin : Origin) (c : Call) (r : Run)
    → Lags origin 0 0 r
    → Lags (after_collect origin (published c r)) 0 0 (apply c r)
unfolding apply request_approval resume_from_approval requeue is_terminal published read_all
    collect_events
apply-IsLogged origin (Call.start a b c o d) r h =
    Lags-same origin (start-same a b c o d r) (transition-logs origin a running none r refl refl h)
apply-IsLogged origin (Call.request_approval now) r h =
    transition-logs origin now awaiting_approval none r refl refl h
apply-IsLogged origin (Call.resume_from_approval now) r h =
    transition-logs origin now running none r refl refl h
apply-IsLogged origin (Call.schedule_retry now) r h = schedule_retry-logs origin now r h
apply-IsLogged origin (Call.requeue now) r h = transition-logs origin now queued none r refl refl h
apply-IsLogged origin (Call.timeout now) r h = timeout-logs origin now r h
apply-IsLogged origin (Call.complete now v) r h = complete-logs origin now v r h
apply-IsLogged origin (Call.fail now e k) r h = fail-logs origin now e k r h
apply-IsLogged origin (Call.cancel a b reason) r h = cancel-logs origin a b reason r h
apply-IsLogged origin (Call.renew_lease a b c o d) r h =
    Lags-same origin (renew_lease-same a b c o d r) h
apply-IsLogged origin (Call.add_step id now q k d) r h = add_step-logs origin id now q k d r h
apply-IsLogged origin (Call.record_cost now m) r h = Lags-same origin (record_cost-same now m r) h
apply-IsLogged origin (Call.record_token_usage now u) r h =
    Lags-same origin (record_token_usage-same now u r) h
apply-IsLogged origin Call.collect_events r h = h

apply_all-IsLogged :
    (origin : Origin) (calls : List Call) (r : Run)
    → Lags origin 0 0 r
    → Lags (after_collect origin (collected calls r)) 0 0 (apply_all calls r)
unfolding apply_all collected read_all
apply_all-IsLogged origin [] r h = h
apply_all-IsLogged origin (c ∷ calls) r h =
    subst
      (λ past.
        Lags (record { attempts = origin.attempts; past = past }) 0 0 (apply_all calls (apply c r)))
      (sym (read_all-append origin.past (published c r) (collected calls (apply c r))))
      (apply_all-IsLogged (after_collect origin (published c r)) calls (apply c r)
        (apply-IsLogged origin c r h))

abbrev created_in : ℤ → RunState → Origin
created_in attempts state = record { attempts = pos_part attempts; past = start_of_history state }

create-IsLogged :
    (id now t a : ℕ) (d : Value) (k : String) (n m : ℤ) (c : Money) (s : ℕ) (state : RunState)
    (spent : Money) {r : Run}
    → create id now t a d k n m c s state spent ≡ ok r
    → Lags (created_in n state) 0 0 r
unfolding create read_all is_terminal
create-IsLogged id now t a d k n m c s state spent h = (
  record { state = state; retries = 0; endings = ending_count state },
  ground arith,
  ground arith,
  ground arith,
  ground arith,
)

-- After any sequence of method calls on a created run, those that raise included and those of
-- `collect_events` too, the events of the run, those that were collected and then those that are
-- pending, tell all of it: each recorded change of state starts where the one before it ended, the
-- first one in the state of the creation, and is a listed transition, the last one ends in the run's
-- state, the attempts are the first ones and one for each recorded retry, and exactly one end is
-- announced if the state is terminal, else none; an end that the run was created in counts as announced.
pub create-apply_all-IsLogged :
    (id now t a : ℕ) (d : Value) (k : String) (n m : ℤ) (c : Money) (s : ℕ) (state : RunState)
    (spent : Money) {r : Run}
    → create id now t a d k n m c s state spent ≡ ok r
    → (calls : List Call)
    → IsLogged
        (pos_part n)
        state
        (collected calls r ++ (apply_all calls r).events)
        (apply_all calls r)
create-apply_all-IsLogged id now t a d k n m c s state spent {r} h calls =
    let (p, e, q, u, v) =
      apply_all-IsLogged (created_in n state) calls r
        (create-IsLogged id now t a d k n m c s state spent h) in
    (
      p,
      read_all-append (start_of_history state) (collected calls r) (apply_all calls r).events ∙ e,
      q,
      omega arith,
      omega arith,
    )
