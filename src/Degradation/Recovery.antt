-- ===== src/Degradation/Recovery.antt =====
-- Degradation under any sequence of calls (app/application/services/degradation_service.py).
use aiagent_x.Common.{
  ℕ, ◌+◌, ◌≡◌, refl, String, true, none, List, [], ◌∷◌, leb, arith, raise, ok, if◌then◌else◌,
}
use aiagent_x.Degradation.{
  DegradationMode, full, Service, attribute_error, new_service, handle_database_failure,
  handle_redis_failure, handle_provider_failure, exit_degradation_mode, manual_degradation,
  reset_failure_counters, check_recovery_conditions, is_feature_available,
}

pub data Call : Type 0 where
  database_failure redis_failure exit : (now : ℕ) → Call
  provider_failure : String → Call
  manual : (now : ℕ) → DegradationMode → String → Call
  reset : Call

-- The service that a call leaves behind, whether it returned or raised.
unfoldable pub apply : Call → Service → Service
apply (database_failure now) s = (handle_database_failure now s).1
apply (redis_failure now) s = (handle_redis_failure now s).1
apply (exit now) s = exit_degradation_mode now s
apply (provider_failure provider) s = handle_provider_failure provider s
apply (manual now mode reason) s = (manual_degradation now mode reason s).1
apply reset s = reset_failure_counters s

unfoldable pub apply_all : List Call → Service → Service
apply_all [] s = s
apply_all (c ∷ calls) s = apply_all calls (apply c s)

pub record IsFull (threshold : ℕ) (s : Service) : Type 0 where
  pub setting : s.auto_recovery ≡ none
  pub mode : s.current_status.mode ≡ full
  pub enabled : s.current_status.auto_recovery_enabled ≡ true
  pub threshold_kept : s.db_failure_threshold ≡ threshold

apply-IsFull : (c : Call) (n : ℕ) (s : Service) → IsFull n s → IsFull n (apply c s)
unfolding apply handle_database_failure handle_redis_failure handle_provider_failure
    exit_degradation_mode manual_degradation reset_failure_counters
apply-IsFull (database_failure now) n s k = ground arith
apply-IsFull (redis_failure now) n s k = ground arith
apply-IsFull (exit now) n s k = ground arith
apply-IsFull (provider_failure provider) n s k = ground arith
apply-IsFull (manual now mode reason) n s k = ground arith
apply-IsFull reset n s k = ground arith

apply_all-IsFull :
    (calls : List Call) (n : ℕ) (s : Service) → IsFull n s → IsFull n (apply_all calls s)
unfolding apply_all
apply_all-IsFull [] n s k = k
apply_all-IsFull (c ∷ calls) n s k = apply_all-IsFull calls n (apply c s) (apply-IsFull c n s k)

available :
    (n : ℕ) (s : Service) (feature : String) → IsFull n s → is_feature_available feature s ≡ true
unfolding is_feature_available
available n s feature k = ground arith

recovers : (n : ℕ) (s : Service) → IsFull n s → check_recovery_conditions s ≡ true
unfolding check_recovery_conditions
recovers n s k = ground arith

failure_raises :
    (now n : ℕ) (s : Service)
    → IsFull n s
    → (handle_database_failure now s).0
      ≡ (if leb n (s.db_failure_count + 1) then raise attribute_error else ok tt)
unfolding handle_database_failure
failure_raises now n s k = ground arith

-- With settings that have no `degradation_auto_recovery`, as the program's have none, a new service never
-- degrades: after any sequence of calls, of failures and of manual degradation too, it is in full
-- operation, every feature counts as available and it finds that it may recover; and a further failure
-- of the database raises an AttributeError exactly if it is at the threshold or past it.
pub never_degraded :
    (now now' threshold redis_threshold : ℕ) (calls : List Call) (feature : String)
    → let s = apply_all calls (new_service now none threshold redis_threshold) in
      (s.current_status.mode ≡ full)
      × (is_feature_available feature s ≡ true)
      × (check_recovery_conditions s ≡ true)
      × ((handle_database_failure now' s).0
          ≡ (if leb threshold (s.db_failure_count + 1) then raise attribute_error else ok tt))
unfolding new_service
never_degraded now now' threshold redis_threshold calls feature =
    let s = apply_all calls (new_service now none threshold redis_threshold) in
    let start : IsFull threshold (new_service now none threshold redis_threshold) = record {
      setting = refl;
      mode = refl;
      enabled = refl;
      threshold_kept = refl;
    } in
    let k =
      apply_all-IsFull calls threshold (new_service now none threshold redis_threshold) start in
    (
      k.mode,
      available threshold s feature k,
      recovers threshold s k,
      failure_raises now' threshold s k,
    )
