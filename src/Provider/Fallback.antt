-- ===== src/Provider/Fallback.antt =====
-- Falling back to another provider: `FallbackConfig` (app/domain/providers/value_objects.py), the
-- handler (app/infrastructure/providers/fallback.py) and the service that runs the fallback
-- (app/application/services/fallback_service.py). A dictionary of counts and one of metadata are
-- association lists; the request and the response are types that the code passes on.
pub mod Accounts
pub mod Balance
use aiagent_x.Common.{
  ℕ, zero, suc, ◌+◌, ◌%◌, ◌≡◌, String, Bool, true, false, Option, none, some, List, [], ◌∷◌, M,
  Result, ok, raise, raise_if, modify, pure, bind_result, ◌>>◌, ◌>>=◌, leb, ltb, not, ◌&&◌, ◌||◌,
  if◌then◌else◌, length, get_elem?, any,
}
use aiagent_x.Common.Int.{ℤ, is_neg, pos_part}
use aiagent_x.Common.Text.{str_eq, is_empty}
use aiagent_x.Common.Dict.{lookup, insert, remove}

pub record FallbackConfig : Type 0 where
  pub primary_provider : String
  pub fallback_providers : List String
  pub max_fallback_attempts : ℕ

pub data ConfigError : Type 0 where
  primary_empty attempts_negative : ConfigError

abbrev pub new_config : String → List String → ℤ → Result ConfigError FallbackConfig
new_config primary providers attempts =
    if is_empty primary
    then raise primary_empty
    else if is_neg attempts
    then raise attempts_negative
    else ok (record {
      primary_provider = primary;
      fallback_providers = providers;
      max_fallback_attempts = pos_part attempts;
    })

pub data FallbackReason : Type 0 where
  circuit_open timeout rate_limit server_error auth_error manual : FallbackReason

abbrev pub value : FallbackReason → String
value circuit_open = "circuit_open"
value timeout = "timeout"
value rate_limit = "rate_limit"
value server_error = "server_error"
value auth_error = "auth_error"
value manual = "manual"

pub record FallbackDecision : Type 0 where
  pub should_fallback : Bool
  pub target_provider : Option String
  pub reason : FallbackReason
  pub metadata : List (String × String)

pub record Handler : Type 0 where
  pub config : FallbackConfig
  pub fallback_count : List (String × ℕ)

abbrev pub new_handler : FallbackConfig → Handler
new_handler config = record { config = config; fallback_count = [] }

abbrev pub or_zero : Option ℕ → ℕ
or_zero none = 0
or_zero (some n) = n

abbrev pub count_of : String → Handler → ℕ
count_of primary h = or_zero (lookup primary h.fallback_count)

unfoldable pub get_fallback_provider : String → Handler → Option String × Handler
get_fallback_provider primary h =
    let count = count_of primary h in
    let providers = h.config.fallback_providers in
    if leb (length providers) 0
    then (none, h)
    else if leb h.config.max_fallback_attempts count
    then (none, h)
    else (
      get_elem? providers (count % length providers),
      record h { fallback_count = insert primary (count + 1) h.fallback_count },
    )

unfoldable pub validate_provider_compatibility : String → String → Handler → Bool
validate_provider_compatibility primary fallback h =
    if str_eq primary fallback
    then false
    else if not (any (λ p. str_eq p fallback) h.config.fallback_providers)
    then false
    else true

abbrev pub reset_fallback_count : String → Handler → Handler
reset_fallback_count primary h = record h { fallback_count = remove primary h.fallback_count }

abbrev pub reset_all_fallback_counts : Handler → Handler
reset_all_fallback_counts h = record h { fallback_count = [] }

abbrev pub is_error_type_fallbackable : String → Bool
is_error_type_fallbackable error_type =
    str_eq error_type "timeout"
    || str_eq error_type "rate_limit"
    || str_eq error_type "server_error"

-- A provider that a falsy test lets pass: there, and not the empty text.
abbrev pub chosen : Option String → Option String
chosen none = none
chosen (some p) = if is_empty p then none else some p

abbrev pub is_valid_target : String → Option String → Handler → Bool
is_valid_target primary none h = false
is_valid_target primary (some p) h = validate_provider_compatibility primary p h

abbrev refused : FallbackReason → List (String × String) → FallbackDecision
refused why metadata = record {
  should_fallback = false;
  target_provider = none;
  reason = why;
  metadata = metadata;
}

unfoldable pub create_fallback_decision :
    String → FallbackReason → List (String × String) → Handler → FallbackDecision × Handler
create_fallback_decision primary why metadata h =
    let next = get_fallback_provider primary h in
    (
      if is_valid_target primary (chosen (next.0)) (next.1)
          then record {
            should_fallback = true;
            target_provider = next.0;
            reason = why;
            metadata = metadata;
          }
          else refused why (insert "reason" "no_valid_fallback_provider" metadata),
      next.1,
    )

unfoldable pub should_fallback :
    (primary error_type circuit_state : String) → Bool → Handler → FallbackDecision × Handler
should_fallback primary error_type circuit_state irreversible h =
    if irreversible
    then (refused manual (("reason", "irreversible_effects_executed") ∷ []), h)
    else if not (is_error_type_fallbackable error_type)
    then (refused manual (("reason", "error_type_not_fallbackable") ∷ []), h)
    else if str_eq circuit_state "open"
    then create_fallback_decision primary circuit_open (("circuit_state", circuit_state) ∷ []) h
    else if str_eq error_type "timeout"
    then create_fallback_decision primary timeout (("error_type", error_type) ∷ []) h
    else if str_eq error_type "rate_limit"
    then create_fallback_decision primary rate_limit (("error_type", error_type) ∷ []) h
    else if str_eq error_type "server_error"
    then create_fallback_decision primary server_error (("error_type", error_type) ∷ []) h
    else (refused manual (("reason", "error_type_not_fallbackable") ∷ []), h)

pub record Metrics : Type 0 where
  pub total_fallback_attempts : ℕ
  pub successful_fallbacks : ℕ
  pub failed_fallbacks : ℕ
  pub by_reason : List (String × ℕ)
  pub by_provider : List (String × ℕ)

abbrev pub no_metrics : Metrics
no_metrics = record {
  total_fallback_attempts = 0;
  successful_fallbacks = 0;
  failed_fallbacks = 0;
  by_reason = [];
  by_provider = [];
}

-- `if key not in d: d[key] = 0`, then `d[key] += 1`.
abbrev pub count_one : String → List (String × ℕ) → List (String × ℕ)
count_one key d = insert key (or_zero (lookup key d) + 1) d

-- What the service raises: `ProviderUnavailableError`, a constructor for each of its messages with
-- what it is filled with,
-- or the error of the fallback provider's call.
pub data FallbackError : Type 0 where
  not_allowed : (why : String) → (primary : String) → FallbackError
  no_fallback_provider : (primary : String) → FallbackError
  not_compatible not_found : (fallback : String) → (primary : String) → FallbackError
  call_failed : String → FallbackError

abbrev pub or_unknown : Option String → String
or_unknown none = "unknown"
or_unknown (some text) = text

-- The service: the registry's providers, each with its `complete`, and the service's own state.
module _ (Request Response : Type 0) where
  pub record Service : Type 0 where
    pub registry : List (String × (Request → Result String Response))
    pub config : FallbackConfig
    pub handler : Handler
    pub metrics : Metrics

module _ {Request Response : Type 0} where
  abbrev pub new_service :
      List (String × (Request → Result String Response)) → FallbackConfig → Service Request Response
  new_service registry config = record {
    registry = registry;
    config = config;
    handler = new_handler config;
    metrics = no_metrics;
  }

  abbrev record_fallback_failure : Service Request Response → Service Request Response
  record_fallback_failure s = record s {
    metrics = record s.metrics { failed_fallbacks = s.metrics.failed_fallbacks + 1 };
  }

  abbrev record_fallback_success :
      (primary reason : String) → Service Request Response → Service Request Response
  record_fallback_success primary why s = record s {
    metrics = record s.metrics {
      successful_fallbacks = s.metrics.successful_fallbacks + 1;
      by_reason = count_one why s.metrics.by_reason;
      by_provider = count_one primary s.metrics.by_provider;
    };
  }

  -- The call of the fallback provider, and what is recorded of it.
  abbrev pub call_provider :
      Request
      → (primary name : String) → FallbackReason
      → Option (Request → Result String Response)
      → Service Request Response
      → Result FallbackError Response × Service Request Response
  call_provider request primary name why none s =
      (raise (not_found name primary), record_fallback_failure s)
  call_provider request primary name why (some complete) s = elim (complete request) [
    | ok response ↦ (ok response, record_fallback_success primary (value why) s)
    | raise e ↦ (raise (call_failed e), record_fallback_failure s)
  ]

  abbrev pub use_provider :
      Request
      → (primary : String) → FallbackReason
      → Option String
      → Service Request Response
      → Result FallbackError Response × Service Request Response
  use_provider request primary why none s =
      (raise (no_fallback_provider primary), record_fallback_failure s)
  use_provider request primary why (some name) s =
      if not (validate_provider_compatibility primary name s.handler)
      then (raise (not_compatible name primary), record_fallback_failure s)
      else call_provider request primary name why (lookup name s.registry) s

  unfoldable pub execute_with_fallback :
      Request
      → (primary error_type circuit_state : String) → Bool
      → Service Request Response
      → Result FallbackError Response × Service Request Response
  execute_with_fallback request primary error_type circuit_state irreversible s =
      let decided = should_fallback primary error_type circuit_state irreversible s.handler in
      let decision = decided.0 in
      let next = get_fallback_provider primary (decided.1) in
      if not decision.should_fallback
      then (
        raise (not_allowed (or_unknown (lookup "reason" decision.metadata)) primary),
        record s { handler = decided.1 },
      )
      else use_provider request primary decision.reason (chosen (next.0)) (record s {
        handler = next.1;
        metrics = record s.metrics {
          total_fallback_attempts = s.metrics.total_fallback_attempts + 1;
        };
      })

  unfoldable pub can_fallback :
      (primary error_type circuit_state : String)
      → Bool
      → Service Request Response
      → Bool × Service Request Response
  can_fallback primary error_type circuit_state irreversible s =
      let decided = should_fallback primary error_type circuit_state irreversible s.handler in
      (decided.0.should_fallback, record s { handler = decided.1 })

  unfoldable pub update_config :
      FallbackConfig → Service Request Response → Service Request Response
  update_config config s = record s { config = config; handler = new_handler config }
