-- ===== src/Provider/Breaker.antt =====
-- `CircuitBreaker` (app/infrastructure/providers/circuit_breaker.py) with its configuration
-- (app/domain/providers/value_objects.py). `now` is one reading of `time.time()`, in microseconds.
-- The failure rate is a float: `reached failed total` is the answer of the comparison of
-- `failed / total` with the configured threshold, for a positive total.
pub mod Cycle
pub mod HalfOpen
use aiagent_x.Common.{
  ℕ, suc, ◌+◌, ◌*◌, ◌-◌, String, Bool, true, false, Option, none, some, List, [], ◌∷◌, ◌++◌, length,
  drop, ltb, leb, ◌==◌, ◌&&◌, ◌||◌, not, if◌then◌else◌, Result, ok, raise,
}
use aiagent_x.Common.Int.{ℤ, is_nonpos, pos_part}
use aiagent_x.Common.Text.{is_empty}

pub data CircuitState : Type 0 where
  closed open' half_open : CircuitState

pub data BreakerError : Type 0 where
  empty_provider_name minimum_not_positive timeout_not_positive calls_not_positive : BreakerError

-- `CircuitBreakerConfig` but its threshold, which is in `reached`; the checks of `__post_init__`
-- make the numbers positive.
pub record Config : Type 0 where
  pub minimum_requests : ℕ
  pub open_timeout_seconds : ℕ
  pub half_open_max_calls : ℕ

unfoldable pub new_config : ℤ → ℤ → ℤ → Result BreakerError Config
new_config minimum timeout calls =
    if is_nonpos minimum
    then raise minimum_not_positive
    else if is_nonpos timeout
    then raise timeout_not_positive
    else if is_nonpos calls
    then raise calls_not_positive
    else ok (record {
      minimum_requests = pos_part minimum;
      open_timeout_seconds = pos_part timeout;
      half_open_max_calls = pos_part calls;
    })

pub record Metrics : Type 0 where
  pub total_requests : ℕ
  pub successful_requests : ℕ
  pub failed_requests : ℕ
  pub last_failure_time : Option ℕ
  pub last_success_time : Option ℕ
  pub consecutive_failures : ℕ
  pub consecutive_successes : ℕ

abbrev pub no_metrics : Metrics
no_metrics = record {
  total_requests = 0;
  successful_requests = 0;
  failed_requests = 0;
  last_failure_time = none;
  last_success_time = none;
  consecutive_failures = 0;
  consecutive_successes = 0;
}

pub record Breaker : Type 0 where
  pub config : Config
  pub provider_name : String
  pub state : CircuitState
  pub metrics : Metrics
  pub failure_window : List Bool
  pub open_timestamp : Option ℕ
  pub half_open_calls : ℕ

unfoldable pub create : Config → String → Result BreakerError Breaker
create config provider_name =
    if is_empty provider_name
    then raise empty_provider_name
    else ok (record {
      config = config;
      provider_name = provider_name;
      state = closed;
      metrics = no_metrics;
      failure_window = [];
      open_timestamp = none;
      half_open_calls = 0;
    })

-- `deque(maxlen=100).append`.
abbrev pub window_append : List Bool → Bool → List Bool
window_append window b = let w = window ++ b ∷ [] in drop (length w - 100) w

unfoldable pub transition_to_open : ℕ → Breaker → Breaker
transition_to_open now b = record b {
  state = open';
  open_timestamp = some now;
  half_open_calls = 0;
}

unfoldable pub transition_to_half_open : Breaker → Breaker
transition_to_half_open b = record b { state = half_open; half_open_calls = 0 }

unfoldable pub transition_to_closed : Breaker → Breaker
transition_to_closed b = record b { state = closed; open_timestamp = none; half_open_calls = 0 }

-- `record_success` up to its test of the state.
pub count_success : ℕ → Breaker → Breaker
count_success now b = record b {
  metrics = record (b.metrics) {
    total_requests = b.metrics.total_requests + 1;
    successful_requests = b.metrics.successful_requests + 1;
    consecutive_successes = b.metrics.consecutive_successes + 1;
    consecutive_failures = 0;
    last_success_time = some now;
  };
  failure_window = window_append b.failure_window true;
}

pub after_success : CircuitState → Breaker → Breaker
unfolding transition_to_closed
after_success half_open b =
    let b' = record b { half_open_calls = b.half_open_calls + 1 } in
    if leb b.config.half_open_max_calls (b.half_open_calls + 1) then transition_to_closed b' else b'
after_success closed b = b
after_success open' b = b

unfoldable pub record_success : ℕ → Breaker → Breaker
unfolding count_success after_success
record_success now b = after_success b.state (count_success now b)

pub count_failure : ℕ → Breaker → Breaker
count_failure now b = record b {
  metrics = record (b.metrics) {
    total_requests = b.metrics.total_requests + 1;
    failed_requests = b.metrics.failed_requests + 1;
    consecutive_failures = b.metrics.consecutive_failures + 1;
    consecutive_successes = 0;
    last_failure_time = some now;
  };
  failure_window = window_append b.failure_window false;
}

unfoldable pub should_attempt_recovery : ℕ → Breaker → Bool
should_attempt_recovery now b = elim b.open_timestamp [
  | none ↦ false
  | some t ↦ leb (t + b.config.open_timeout_seconds * 1000000) now
]

abbrev can_execute_in : ℕ → CircuitState → Breaker → Bool × Breaker
can_execute_in now closed b = (true, b)
can_execute_in now open' b =
    if should_attempt_recovery now b then (true, transition_to_half_open b) else (false, b)
can_execute_in now half_open b = (ltb b.half_open_calls b.config.half_open_max_calls, b)

unfoldable pub can_execute : ℕ → Breaker → Bool × Breaker
unfolding should_attempt_recovery transition_to_half_open
can_execute now b = can_execute_in now b.state b

unfoldable pub reset : Breaker → Breaker
reset b = record b {
  state = closed;
  metrics = no_metrics;
  failure_window = [];
  open_timestamp = none;
  half_open_calls = 0;
}

-- The state and the answer that `get_status` reports: the state is read before `can_execute`, whose
-- effect on the breaker stays.
unfoldable pub get_status : ℕ → Breaker → (CircuitState × Bool) × Breaker
get_status now b = let (allowed, b') = can_execute now b in ((b.state, allowed), b')

module _ (reached : ℕ → ℕ → Bool) where
  unfoldable pub should_trip : Breaker → Bool
  should_trip b =
      if ltb b.metrics.total_requests b.config.minimum_requests
      then false
      else reached b.metrics.failed_requests b.metrics.total_requests

  pub after_failure : ℕ → CircuitState → Breaker → Breaker
  unfolding should_trip transition_to_open
  after_failure now half_open b = transition_to_open now b
  after_failure now closed b = if should_trip b then transition_to_open now b else b
  after_failure now open' b = b

  unfoldable pub record_failure : ℕ → Breaker → Breaker
  unfolding count_failure after_failure
  record_failure now b = after_failure now b.state (count_failure now b)
