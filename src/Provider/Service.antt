-- ===== src/Provider/Service.antt =====
-- `ProviderService` (app/application/services/provider_service.py): the registry, the breakers, the
-- health monitor and the fallback handler put together. A provider is a type of its own, with its
-- name; what its `complete` answers in a call of the service is an argument of that call. `reached`
-- compares the failure rate of a provider's breaker with its threshold; each call reads one time.
pub mod Served
pub mod Skipped
use aiagent_x.Common.{
  ℕ, String, Bool, true, false, not, Option, none, some, List, [], ◌∷◌, Result, ok, raise, is_some,
  if◌then◌else◌,
}
use aiagent_x.Common.Text.{is_empty}
use aiagent_x.Common.Dict.{lookup, insert}
use aiagent_x.Provider.Retry.{RetryPolicy}
use aiagent_x.Provider.Breaker
use aiagent_x.Provider.Breaker.{Breaker, CircuitState, closed, open', half_open}
use aiagent_x.Provider.Registry
use aiagent_x.Provider.Registry.{Registry, ProviderConfig}
use aiagent_x.Provider.Health
use aiagent_x.Provider.Fallback.{
  FallbackReason, circuit_open, Handler, chosen, should_fallback, get_fallback_provider,
  validate_provider_compatibility,
}

-- The classes of exceptions that `_classify_error` tells apart, with their message.
pub data CallError : Type 0 where
  timeout_error rate_limit_error authentication_error validation_error other_error :
      String → CallError

unfoldable pub classify_error : CallError → String
classify_error (timeout_error m) = "timeout"
classify_error (rate_limit_error m) = "rate_limit"
classify_error (authentication_error m) = "auth_error"
classify_error (validation_error m) = "validation_error"
classify_error (other_error m) = "server_error"

pub data ServiceError : Type 0 where
  provider_not_found : String → ServiceError
  no_provider_available : ServiceError
  circuit_is_open : (provider : String) → ServiceError
  no_fallback_available : (primary : String) → ServiceError
  fallback_not_compatible fallback_not_found : (fallback primary : String) → ServiceError
  call_failed : CallError → ServiceError

-- `CircuitState.value`, and "closed" where there is no breaker.
abbrev pub state_value : CircuitState → String
state_value closed = "closed"
state_value open' = "open"
state_value half_open = "half_open"

abbrev pub circuit_state_of : Option Breaker → String
circuit_state_of none = "closed"
circuit_state_of (some b) = state_value b.state

-- `if provider_name`.
abbrev pub asked_for : Option String → Option String
asked_for none = none
asked_for (some name) = if is_empty name then none else some name

pub record Service (Provider : Type 0) : Type 0 where
  pub registry : Registry Provider
  pub health : Health.Monitor
  pub handler : Handler
  pub breakers : List (String × Breaker)

abbrev pub with_breaker :
    String
    → Option (Result Breaker.BreakerError Breaker)
    → List (String × Breaker)
    → List (String × Breaker)
with_breaker name none breakers = breakers
with_breaker name (some (raise e)) breakers = breakers
with_breaker name (some (ok b)) breakers = insert name b breakers

abbrev pub new_breaker :
    String → Option Breaker.Config → Option (Result Breaker.BreakerError Breaker)
unfolding Breaker.create
new_breaker name none = none
new_breaker name (some config) = some (Breaker.create config name)

module _ {Provider : Type 0} where
  -- For a provider with a name, for which creating its breaker does not raise.
  unfoldable pub register_provider :
      (Provider → String)
      → Provider
      → ProviderConfig
      → Option RetryPolicy
      → Option Breaker.Config
      → Service Provider
      → Service Provider
  unfolding Registry.register_provider Health.register_provider
  register_provider provider_name p config retry breaker s = record s {
    registry = Registry.register_provider provider_name p config retry breaker s.registry;
    health = Health.register_provider (provider_name p) s.health;
    breakers = with_breaker (provider_name p) (new_breaker (provider_name p) breaker) s.breakers;
  }

  unfoldable pub select_provider : Option String → Service Provider → Result ServiceError Provider
  select_provider asked s = elim (asked_for asked) [
    | some name ↦ elim (lookup name s.registry.providers) [
      | none ↦ raise (provider_not_found name)
      | some p ↦ ok p
    ]
    | none ↦ elim (lookup s.handler.config.primary_provider s.registry.providers) [
      | none ↦ raise no_provider_available
      | some p ↦ ok p
    ]
  ]

  -- A change of the breaker of a provider, where it has one.
  abbrev pub change_breaker :
      String → Option Breaker → (Breaker → Breaker) → Service Provider → Service Provider
  change_breaker name none f s = s
  change_breaker name (some b) f s = record s { breakers = insert name (f b) s.breakers }

  abbrev pub health_checked : (now : ℕ) → String → Bool → ℕ → Service Provider → Service Provider
  unfolding Health.record_health_check
  health_checked now name healthy latency s = record s {
    health = Health.record_health_check now now name healthy latency s.health;
  }

  unfoldable pub reset_circuit_breaker : String → Service Provider → Bool × Service Provider
  unfolding Breaker.reset
  reset_circuit_breaker name s = elim (lookup name s.breakers) [
    | none ↦ (false, s)
    | some b ↦ (true, record s { breakers = insert name (Breaker.reset b) s.breakers })
  ]

-- The section for one call: `complete_of` is what each provider answers in it.
module _ {Provider Request Response : Type 0} (provider_name : Provider → String)
    (latency_ms : Response → ℕ) (reached : String → ℕ → ℕ → Bool)
    (complete_of : Provider → Request → Result CallError Response) where
  abbrev pub Answer : Type 0
  Answer = Result ServiceError Response × Service Provider

  abbrev pub answered : Result CallError Response → Result ServiceError Response
  answered (ok response) = ok response
  answered (raise e) = raise (call_failed e)

  abbrev pub try_fallback : Request → (primary : String) → Option String → Service Provider → Answer
  try_fallback request primary none s = (raise (no_fallback_available primary), s)
  try_fallback request primary (some name) s =
      if not (validate_provider_compatibility primary name s.handler)
      then (raise (fallback_not_compatible name primary), s)
      else elim (lookup name s.registry.providers) [
        | none ↦ (raise (fallback_not_found name primary), s)
        | some p ↦ (answered (complete_of p request), s)
      ]

  -- `_attempt_fallback`; its reason is only logged, and so are its two records.
  unfoldable pub attempt_fallback : Request → (primary : String) → Service Provider → Answer
  unfolding get_fallback_provider validate_provider_compatibility
  attempt_fallback request primary s =
      let (next, handler) = get_fallback_provider primary s.handler in
      try_fallback request primary (chosen next) (record s { handler = handler })

  -- The handlers of the `try` around the call, with the provider's breaker as it was before it.
  unfoldable pub succeed :
      (now : ℕ) → String → Option Breaker → Response → Service Provider → Answer
  unfolding Breaker.record_success Health.record_health_check
  succeed now name breaker response s = (
    ok response,
    health_checked now name true (latency_ms response)
        (change_breaker name breaker (Breaker.record_success now) s),
  )

  abbrev pub failed_breaker : (now : ℕ) → String → Option Breaker → Option Breaker
  unfolding Breaker.record_failure
  failed_breaker now name none = none
  failed_breaker now name (some b) = some (Breaker.record_failure (reached name) now b)

  -- The two records of a failure.
  unfoldable pub note_failure :
      (now : ℕ) → String → Option Breaker → Service Provider → Service Provider
  unfolding Breaker.record_failure Health.record_health_check
  note_failure now name breaker s =
      health_checked now name false 0
        (change_breaker name breaker (Breaker.record_failure (reached name) now) s)

  unfoldable pub decide :
      Request → String → (circuit_state : String) → CallError → Service Provider → Answer
  unfolding classify_error should_fallback attempt_fallback
  decide request name circuit_state e s =
      let (decision, handler) =
        should_fallback name (classify_error e) circuit_state false s.handler in
      let s' = record s { handler = handler } in
      if decision.should_fallback
      then attempt_fallback request name s'
      else (raise (call_failed e), s')

  unfoldable pub fail :
      (now : ℕ) → Bool → Request → String → Option Breaker → CallError → Service Provider → Answer
  unfolding note_failure decide Breaker.record_failure
  fail now enable_fallback request name breaker e s =
      let s' = note_failure now name breaker s in
      if not enable_fallback
      then (raise (call_failed e), s')
      else decide request name (circuit_state_of (failed_breaker now name breaker)) e s'

  unfoldable pub after_call :
      (now : ℕ)
      → Bool
      → Request
      → String
      → Option Breaker
      → Result CallError Response
      → Service Provider
      → Answer
  unfolding succeed fail
  after_call now enable_fallback request name breaker (ok response) s =
      succeed now name breaker response s
  after_call now enable_fallback request name breaker (raise e) s =
      fail now enable_fallback request name breaker e s

  unfoldable pub if_allowed :
      (now : ℕ) → Bool → Request → Provider → (allowed : Bool) → Breaker → Service Provider → Answer
  unfolding after_call attempt_fallback
  if_allowed now enable_fallback request p true b s =
      after_call now enable_fallback request (provider_name p) (some b) (complete_of p request) s
  if_allowed now enable_fallback request p false b s =
      if enable_fallback
      then attempt_fallback request (provider_name p) s
      else (raise (circuit_is_open (provider_name p)), s)

  unfoldable pub guarded :
      (now : ℕ) → Bool → Request → Provider → Option Breaker → Service Provider → Answer
  unfolding Breaker.can_execute after_call if_allowed
  guarded now enable_fallback request p none s =
      after_call now enable_fallback request (provider_name p) none (complete_of p request) s
  guarded now enable_fallback request p (some b) s =
      let (allowed, b') = Breaker.can_execute now b in
      if_allowed now enable_fallback request p allowed b'
        (record s { breakers = insert (provider_name p) b' s.breakers })

  unfoldable pub complete :
      (now : ℕ) → Request → Option String → (enable_fallback : Bool) → Service Provider → Answer
  unfolding select_provider guarded
  complete now request asked enable_fallback s = elim (select_provider asked s) [
    | raise e ↦ (raise e, s)
    | ok p ↦ guarded now enable_fallback request p (lookup (provider_name p) s.breakers) s
  ]
