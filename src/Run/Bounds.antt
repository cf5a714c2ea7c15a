-- ===== src/Run/Bounds.antt =====
-- The limits of a run (app/domain/entities/run.py): its cost, its number of steps, and the sequences
-- of its steps.
use aiagent_x.Common.{
  refl, Option, ℕ, ◌≤◌, ◌<◌, ◌≡◌, false, String, List, [], ◌∷◌, ◌++◌, arith, length, length-append,
  any, All, All-append, ok, ◌==◌, none, some, ◌*◌, ◌/◌,
}
use aiagent_x.Common.Int.{ℤ, pos, negsuc}
use aiagent_x.Common.Value.{Value}
use aiagent_x.Money
use aiagent_x.Money.{Money, TokenUsage}
use aiagent_x.Run.Data.{collect_events, Run, RunStep, create}
use aiagent_x.Run.Methods.{
  transition, start, set_lease_expiry, request_approval, resume_from_approval, schedule_retry,
  requeue, complete, fail, cancel, timeout, renew_lease, add_step, record_cost, record_token_usage,
  new_step,
}
use aiagent_x.RunState.{
  RunState, RunStepKind, running, retry_scheduled, succeeded, awaiting_approval, queued, failed,
  cancelled, timed_out,
}
use aiagent_x.Run.Calls.{Call, apply, apply_all}

-- No two steps have one sequence.
abbrev pub Distinct : List RunStep → Type 0
Distinct [] = Unit
Distinct (s ∷ steps) = All (λ t. (s.sequence == t.sequence) ≡ false) steps × Distinct steps

pub record IsValid (r : Run) : Type 0 where
  pub steps_positive : 0 < r.max_steps
  pub cost_positive : 0 < r.max_cost.micro_units
  pub within_cost : r.spent_cost.micro_units ≤ r.max_cost.micro_units
  pub within_steps : length r.steps ≤ r.max_steps
  pub distinct : Distinct r.steps

-- What a method other than `add_step` and the two that record costs leaves alone.
abbrev SameLimits : Run → Run → Type 0
SameLimits r r' =
    (r'.max_steps ≡ r.max_steps)
    × (r'.max_cost ≡ r.max_cost)
    × (r'.spent_cost ≡ r.spent_cost)
    × (r'.steps ≡ r.steps)

SameLimits-IsValid : (r r' : Run) → SameLimits r r' → IsValid r → IsValid r'
SameLimits-IsValid r r' (a, b, c, d) v = record {
  steps_positive = rw a v.steps_positive;
  cost_positive = rw b v.cost_positive;
  within_cost = rw (c, b) v.within_cost;
  within_steps = rw (d, a) v.within_steps;
  distinct = rw d v.distinct;
}

transition_limits :
    (now : ℕ) (s : RunState) (reason : Option String) (r : Run)
    → SameLimits r (transition now s reason r).1
unfolding transition
transition_limits now s reason r = ground arith

Distinct-snoc :
    (steps : List RunStep) (s : RunStep)
    → any (λ t. t.sequence == s.sequence) steps ≡ false
    → Distinct steps
    → Distinct (steps ++ s ∷ [])
Distinct-snoc [] s h d = (tt, tt)
Distinct-snoc (t ∷ steps) s h d =
    (All-append _ steps (s ∷ []) d.0 (ground arith, tt), Distinct-snoc steps s (ground arith) d.1)

start_limits : (a b c : ℕ) (o : String) (d : ℕ) (r : Run) → SameLimits r (start a b c o d r).1
unfolding start set_lease_expiry
start_limits a b c o d r = ground (arith, transition_limits a running none r)

schedule_retry_limits : (now : ℕ) (r : Run) → SameLimits r (schedule_retry now r).1
unfolding schedule_retry
schedule_retry_limits now r = ground (arith, transition_limits now retry_scheduled none r)

complete_limits : (now : ℕ) (v : Value) (r : Run) → SameLimits r (complete now v r).1
unfolding complete
complete_limits now v r = ground (arith, transition_limits now succeeded none r)

fail_limits : (now : ℕ) (e : String) (k : Option ℕ) (r : Run) → SameLimits r (fail now e k r).1
unfolding fail
fail_limits now e k r = ground (arith, transition_limits now failed (some e) r)

cancel_limits : (a b : ℕ) (reason : Option String) (r : Run) → SameLimits r (cancel a b reason r).1
unfolding cancel
cancel_limits a b reason r =
    ground (arith, transition_limits b cancelled reason (record r { cancel_requested_at = some a }))

timeout_limits : (now : ℕ) (r : Run) → SameLimits r (timeout now r).1
unfolding timeout
timeout_limits now r = ground (arith, transition_limits now timed_out none r)

renew_lease_limits :
    (a b c : ℕ) (o : String) (d : ℕ) (r : Run) → SameLimits r (renew_lease a b c o d r).1
unfolding renew_lease set_lease_expiry
renew_lease_limits a b c o d r = ground arith

record_cost-IsValid : (now : ℕ) (m : Money) (r : Run) → IsValid r → IsValid (record_cost now m r).1
unfolding record_cost Money.add
record_cost-IsValid now m r v = ground arith

record_token_usage-IsValid :
    (now : ℕ) (u : TokenUsage) (r : Run) → IsValid r → IsValid (record_token_usage now u r).1
unfolding record_token_usage
record_token_usage-IsValid now u r v =
    ground (arith, record_cost-IsValid now (record { micro_units = u.total_tokens * 10 / 1000 }) r)

add_step-IsValid :
    (id now : ℕ) (q : ℤ) (k : RunStepKind) (d : Option Value) (r : Run)
    → IsValid r
    → IsValid (add_step id now q k d r).1
unfolding add_step
add_step-IsValid id now (negsuc q) k d r v = ground arith
add_step-IsValid id now (pos q) k d r v =
    let s = new_step id now (pos q) k d r in
    ground (arith, length-append r.steps (s ∷ []), Distinct-snoc r.steps s)

-- Every call, whether it returns or raises, keeps the limits of a run.
pub apply-IsValid : (c : Call) (r : Run) → IsValid r → IsValid (apply c r)
unfolding apply request_approval resume_from_approval requeue collect_events
apply-IsValid (Call.start a b c o d) r = SameLimits-IsValid r _ (start_limits a b c o d r)
apply-IsValid (Call.request_approval now) r =
    SameLimits-IsValid r _ (transition_limits now awaiting_approval none r)
apply-IsValid (Call.resume_from_approval now) r =
    SameLimits-IsValid r _ (transition_limits now running none r)
apply-IsValid (Call.schedule_retry now) r = SameLimits-IsValid r _ (schedule_retry_limits now r)
apply-IsValid (Call.requeue now) r = SameLimits-IsValid r _ (transition_limits now queued none r)
apply-IsValid (Call.timeout now) r = SameLimits-IsValid r _ (timeout_limits now r)
apply-IsValid (Call.complete now v) r = SameLimits-IsValid r _ (complete_limits now v r)
apply-IsValid (Call.fail now e k) r = SameLimits-IsValid r _ (fail_limits now e k r)
apply-IsValid (Call.cancel a b reason) r = SameLimits-IsValid r _ (cancel_limits a b reason r)
apply-IsValid (Call.renew_lease a b c o d) r =
    SameLimits-IsValid r _ (renew_lease_limits a b c o d r)
apply-IsValid (Call.add_step id now q k d) r = add_step-IsValid id now q k d r
apply-IsValid (Call.record_cost now m) r = record_cost-IsValid now m r
apply-IsValid (Call.record_token_usage now u) r = record_token_usage-IsValid now u r
apply-IsValid Call.collect_events r = SameLimits-IsValid r _ (refl, refl, refl, refl)

create-IsValid :
    (id now t a : ℕ) (d : Value) (k : String) (n m : ℤ) (c : Money) (s : ℕ) (state : RunState)
    (spent : Money) {r : Run}
    → spent.micro_units ≤ c.micro_units
    → create id now t a d k n m c s state spent ≡ ok r
    → IsValid r
unfolding create
create-IsValid id now t a d k n m c s state spent within h = ground arith

apply_all-IsValid : (calls : List Call) (r : Run) → IsValid r → IsValid (apply_all calls r)
unfolding apply_all
apply_all-IsValid [] r v = v
apply_all-IsValid (c ∷ calls) r v = apply_all-IsValid calls (apply c r) (apply-IsValid c r v)

-- A run that the constructor accepts, in any state and with a spent cost that is not above its maximum
-- (which the constructor itself does not check), after any sequence of method calls, those that raise
-- included, has spent at most its maximum cost and has at most its maximum number of steps, no two of
-- them with one sequence; both maxima are positive.
pub create-apply_all-IsValid :
    (id now t a : ℕ) (d : Value) (k : String) (n m : ℤ) (c : Money) (s : ℕ) (state : RunState)
    (spent : Money) {r : Run}
    → spent.micro_units ≤ c.micro_units
    → create id now t a d k n m c s state spent ≡ ok r
    → (calls : List Call) → IsValid (apply_all calls r)
create-apply_all-IsValid id now t a d k n m c s state spent within h calls =
    apply_all-IsValid calls _ (create-IsValid id now t a d k n m c s state spent within h)
