-- ===== src/Degradation.antt =====
-- `DegradationService` (app/application/services/degradation_service.py). Each argument `now` is one
-- reading of the clock; `auto_recovery` is what the settings have as `degradation_auto_recovery`: `none`
-- where they have no such attribute, as the class `Settings` (app/settings.py) has none. The reason's
-- text is kept by what it is built from.
pub mod Recovery
use aiagent_x.Common.{
  M, ok, raise, ℕ, ◌+◌, String, Bool, true, false, Option, none, some, List, [], ◌∷◌, ◌++◌, leb,
  ◌==◌, not, any, if◌then◌else◌,
}
use aiagent_x.Common.Text.{str_eq}
use aiagent_x.Common.Dict.{lookup, insert}

pub data DegradationMode : Type 0 where
  full degraded_cache degraded_db degraded_providers minimal : DegradationMode

abbrev pub rank : DegradationMode → ℕ
rank full = 0
rank degraded_cache = 1
rank degraded_db = 2
rank degraded_providers = 3
rank minimal = 4

abbrev pub mode_eq : DegradationMode → DegradationMode → Bool
mode_eq a b = rank a == rank b

pub data Reason : Type 0 where
  database_failures redis_failures : (failure_count : ℕ) → Reason
  manual : String → Reason

pub record DegradationStatus : Type 0 where
  pub mode : DegradationMode
  pub reason : Option Reason
  pub affected_components : Option (List String)
  pub entered_at : Option ℕ
  pub auto_recovery_enabled : Bool

-- The status that the service starts in and returns to.
abbrev pub full_status : ℕ → DegradationStatus
full_status now = record {
  mode = full;
  reason = none;
  affected_components = none;
  entered_at = some now;
  auto_recovery_enabled = true;
}

pub data DegradationError : Type 0 where
  attribute_error : DegradationError

pub record Service : Type 0 where
  pub auto_recovery : Option Bool
  pub db_failure_threshold : ℕ
  pub redis_failure_threshold : ℕ
  pub current_status : DegradationStatus
  pub db_failure_count : ℕ
  pub redis_failure_count : ℕ
  pub provider_failures : List (String × ℕ)

unfoldable pub new_service :
    (now : ℕ) → Option Bool → (database_threshold redis_threshold : ℕ) → Service
new_service now auto_recovery database_threshold redis_threshold = record {
  auto_recovery = auto_recovery;
  db_failure_threshold = database_threshold;
  redis_failure_threshold = redis_threshold;
  current_status = full_status now;
  db_failure_count = 0;
  redis_failure_count = 0;
  provider_failures = [];
}

-- The setting is read before the status is assigned.
unfoldable pub enter_degradation_mode :
    (now : ℕ) → DegradationMode → Reason → List String → M Service DegradationError (Unit {0})
enter_degradation_mode now mode reason components s = elim s.auto_recovery [
  | none ↦ (raise attribute_error, s)
  | some auto ↦ (
    ok tt,
    record s {
      current_status = record {
        mode = mode;
        reason = some reason;
        affected_components = some components;
        entered_at = some now;
        auto_recovery_enabled = auto;
      };
    },
  )
]

-- The handlers return the status that they leave behind.
unfoldable pub handle_database_failure : (now : ℕ) → M Service DegradationError (Unit {0})
unfolding enter_degradation_mode
handle_database_failure now s =
    let s' = record s { db_failure_count = s.db_failure_count + 1 } in
    if leb s.db_failure_threshold (s.db_failure_count + 1)
    then enter_degradation_mode now degraded_db (database_failures (s.db_failure_count + 1))
        ("database" ∷ []) s'
    else (ok tt, s')

unfoldable pub handle_redis_failure : (now : ℕ) → M Service DegradationError (Unit {0})
unfolding enter_degradation_mode
handle_redis_failure now s =
    let s' = record s { redis_failure_count = s.redis_failure_count + 1 } in
    if leb s.redis_failure_threshold (s.redis_failure_count + 1)
    then enter_degradation_mode now degraded_cache (redis_failures (s.redis_failure_count + 1))
        ("cache" ∷ "rate_limiting" ∷ "idempotency" ∷ []) s'
    else (ok tt, s')

abbrev pub or_zero : Option ℕ → ℕ
or_zero none = 0
or_zero (some n) = n

unfoldable pub handle_provider_failure : String → Service → Service
handle_provider_failure provider s = record s {
  provider_failures =
      insert provider (or_zero (lookup provider s.provider_failures) + 1) s.provider_failures;
}

unfoldable pub check_recovery_conditions : Service → Bool
check_recovery_conditions s =
    if not s.current_status.auto_recovery_enabled
    then false
    else if mode_eq s.current_status.mode full
    then true
    else if mode_eq s.current_status.mode degraded_db
    then s.db_failure_count == 0
    else if mode_eq s.current_status.mode degraded_cache
    then s.redis_failure_count == 0
    else false

unfoldable pub reset_failure_counters : Service → Service
reset_failure_counters s = record s {
  db_failure_count = 0;
  redis_failure_count = 0;
  provider_failures = [];
}

unfoldable pub exit_degradation_mode : (now : ℕ) → Service → Service
unfolding reset_failure_counters
exit_degradation_mode now s = reset_failure_counters (record s { current_status = full_status now })

unfoldable pub manual_degradation :
    (now : ℕ) → DegradationMode → String → M Service DegradationError (Unit {0})
unfolding enter_degradation_mode
manual_degradation now mode reason s =
    enter_degradation_mode now mode (manual reason) ("manual" ∷ []) s

unfoldable pub features_lost : DegradationMode → List String
features_lost full = []
features_lost degraded_cache = "rate_limiting" ∷ "idempotency" ∷ "cancellation_pubsub" ∷ []
features_lost degraded_db = "persistence" ∷ "audit_logging" ∷ "run_history" ∷ []
features_lost degraded_providers = "provider_fallback" ∷ "advanced_features" ∷ []
features_lost minimal = "rate_limiting" ∷ "idempotency" ∷ "persistence" ∷ "advanced_features" ∷ []

unfoldable pub get_degraded_features : Service → List String
unfolding features_lost
get_degraded_features s = features_lost s.current_status.mode

unfoldable pub is_feature_available : String → Service → Bool
unfolding get_degraded_features
is_feature_available feature s = not (any (λ f. str_eq f feature) (get_degraded_features s))
