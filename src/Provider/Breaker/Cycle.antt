-- ===== src/Provider/Breaker/Cycle.antt =====
-- The cycle of a breaker through its states (circuit_breaker.py).
use aiagent_x.Common.{
  ℕ, ◌+◌, ◌*◌, ◌-◌, ◌≤◌, ◌<◌, ◌≡◌, ◌⊎◌, Bool, true, false, some, List, [], ◌∷◌, ◌++◌, arith, length,
  length-drop, leb, if◌then◌else◌, ok, is_some, not, ◌&&◌,
}
use aiagent_x.Common.Int.{ℤ}
use Prim.Native.String.{String}
use aiagent_x.Provider.Breaker.{
  Breaker, CircuitState, closed, open', half_open, Config, new_config, create, record_success,
  record_failure, can_execute, reset, window_append,
}

abbrev pub is_closed : CircuitState → Bool
is_closed closed = true
is_closed _ = false

-- The requests are counted, the window holds the last hundred at most, the time of opening is known
-- unless the breaker is closed, and only a half-open breaker counts trial calls, fewer than its
-- maximum.
pub record IsValid (b : Breaker) : Type 0 where
  pub calls_positive : 0 < b.config.half_open_max_calls
  pub counted : b.metrics.total_requests ≡ b.metrics.successful_requests + b.metrics.failed_requests
  pub bounded : length b.failure_window ≤ 100
  pub opened : is_some b.open_timestamp ≡ not (is_closed b.state)
  pub trials : b.half_open_calls < b.config.half_open_max_calls
  pub no_trials : (b.state ≡ half_open) ⊎ (b.half_open_calls ≡ 0)

pub data Call : Type 0 where
  success failure ask : ℕ → Call
  reset' : Call

window_append-le : (w : List Bool) (b : Bool) → length (window_append w b) ≤ 100
window_append-le w b = omega (arith, length-drop {0} (length (w ++ b ∷ []) - 100) (w ++ b ∷ []))

module _ (reached : ℕ → ℕ → Bool) where
  pub apply : Call → Breaker → Breaker
  apply (success now) b = record_success now b
  apply (failure now) b = record_failure reached now b
  apply (ask now) b = (can_execute now b).1
  apply reset' b = reset b

  pub apply_all : List Call → Breaker → Breaker
  apply_all [] b = b
  apply_all (c ∷ calls) b = apply_all calls (apply c b)

  success-IsValid : (now : ℕ) (b : Breaker) → IsValid b → IsValid (record_success now b)
  unfolding record_success
  success-IsValid now b v = ground (arith, window_append-le b.failure_window true)

  failure-IsValid : (now : ℕ) (b : Breaker) → IsValid b → IsValid (record_failure reached now b)
  unfolding record_failure
  failure-IsValid now b v = ground (arith, window_append-le b.failure_window false)

  ask-IsValid : (now : ℕ) (b : Breaker) → IsValid b → IsValid (can_execute now b).1
  unfolding can_execute
  ask-IsValid now b v = ground arith

  apply-IsValid : (c : Call) (b : Breaker) → IsValid b → IsValid (apply c b)
  unfolding apply
  apply-IsValid (success now) b v = success-IsValid now b v
  apply-IsValid (failure now) b v = failure-IsValid now b v
  apply-IsValid (ask now) b v = ask-IsValid now b v
  apply-IsValid reset' b v = unfold reset in ground arith

  apply_all-IsValid : (calls : List Call) (b : Breaker) → IsValid b → IsValid (apply_all calls b)
  unfolding apply_all
  apply_all-IsValid [] b v = v
  apply_all-IsValid (c ∷ calls) b v = apply_all-IsValid calls (apply c b) (apply-IsValid c b v)

  create-IsValid :
      (m t k : ℤ) {c : Config} (name : String) {b : Breaker}
      → new_config m t k ≡ ok c
      → create c name ≡ ok b
      → IsValid b
  unfolding new_config create
  create-IsValid m t k name h e = ground arith

  -- A breaker made from an accepted configuration is valid after any sequence of calls: its counters
  -- add up, its window holds at most a hundred outcomes, it knows when it opened exactly unless it
  -- is closed, and it counts trial calls only while half open, fewer than the maximum.
  pub apply_all-create-IsValid :
      (m t k : ℤ) {c : Config} (name : String) {b : Breaker}
      → new_config m t k ≡ ok c
      → create c name ≡ ok b
      → (calls : List Call) → IsValid (apply_all calls b)
  apply_all-create-IsValid m t k name h e calls =
      apply_all-IsValid calls _ (create-IsValid m t k name h e)

  -- A closed breaker opens on exactly those failures that bring it to the minimum number of
  -- requests with the threshold reached, the failure counted in; and then it knows the time.
  pub failure_opens :
      (now : ℕ) (b : Breaker)
      → b.state ≡ closed
      → let m = b.metrics in
        let trips =
          leb b.config.minimum_requests (m.total_requests + 1)
          && reached (m.failed_requests + 1) (m.total_requests + 1) in
        let b' = record_failure reached now b in
        (b'.state ≡ (if trips then open' else closed))
        × (b'.open_timestamp ≡ (if trips then some now else b.open_timestamp))
  unfolding record_failure
  failure_opens now b h = ground arith

-- An open breaker refuses every request until its timeout has passed, unchanged; then it lets one
-- through and is half open, with no trial call counted.
pub open_waits :
    (now t : ℕ) (b : Breaker)
    → b.state ≡ open'
    → b.open_timestamp ≡ some t
    → let due = leb (t + b.config.open_timeout_seconds * 1000000) now in
      can_execute now b
      ≡ (if due then (true, record b { state = half_open; half_open_calls = 0 }) else (false, b))
unfolding can_execute
open_waits now t b h e = ground arith
