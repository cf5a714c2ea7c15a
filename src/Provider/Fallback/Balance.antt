-- ===== src/Provider/Fallback/Balance.antt =====
-- What the fallback service counts (app/application/services/fallback_service.py).
use aiagent_x.Common.{
  ℕ, ◌+◌, ◌≡◌, ◌⊎◌, inl, inr, refl, sym, ap, ◌∙◌, arith, String, Bool, Option, none, some, List, [],
  ◌∷◌, Result,
}
use mathlib.Core.Path.{subst}
use aiagent_x.Common.Dict.{lookup, insert}
use aiagent_x.Provider.Fallback.{
  FallbackConfig, FallbackReason, Metrics, Service, count_one, value, get_fallback_provider,
  reset_fallback_count, reset_all_fallback_counts, new_service, use_provider, execute_with_fallback,
  can_fallback, update_config,
}
use aiagent_x.Provider.Fallback.Accounts.{attempted, execute_with_fallback-cases}

-- The sum of a dictionary's numbers.
pub total : List (String × ℕ) → ℕ
total [] = 0
total ((k, n) ∷ d) = n + total d

total-count_one : (key : String) (d : List (String × ℕ)) → total (count_one key d) ≡ total d + 1
unfolding total lookup insert
total-count_one key [] = omega arith
total-count_one key ((k, n) ∷ d) = ground (arith, total-count_one key d)

-- The calls of the service that change its state.
pub data Call (Request : Type 0) : Type 0 where
  execute : Request → (primary error_type circuit_state : String) → Bool → Call Request
  can : (primary error_type circuit_state : String) → Bool → Call Request
  get : (primary : String) → Call Request
  reset : (primary : String) → Call Request
  reset_all : Call Request
  update : FallbackConfig → Call Request

-- Every attempt has come to a success or a failure, and every success stands under its reason and
-- under its provider.
pub IsBalanced : Metrics → Type 0
IsBalanced m =
    (m.total_fallback_attempts ≡ m.successful_fallbacks + m.failed_fallbacks)
    × (total m.by_reason ≡ m.successful_fallbacks)
    × (total m.by_provider ≡ m.successful_fallbacks)

module _ {Request Response : Type 0} where
  pub apply : Call Request → Service Request Response → Service Request Response
  apply (execute request primary error_type circuit_state irreversible) s =
      (execute_with_fallback request primary error_type circuit_state irreversible s).1
  apply (can primary error_type circuit_state irreversible) s =
      (can_fallback primary error_type circuit_state irreversible s).1
  apply (get primary) s = record s { handler = (get_fallback_provider primary s.handler).1 }
  apply (reset primary) s = record s { handler = reset_fallback_count primary s.handler }
  apply reset_all s = record s { handler = reset_all_fallback_counts s.handler }
  apply (update config) s = update_config config s

  pub apply_all : List (Call Request) → Service Request Response → Service Request Response
  apply_all [] s = s
  apply_all (c ∷ cs) s = apply_all cs (apply c s)

  use_provider-metrics :
      (request : Request) (primary : String) (why : FallbackReason) (next : Option String)
      (s : Service Request Response)
      → ((use_provider request primary why next s).1.metrics
          ≡ record s.metrics { failed_fallbacks = s.metrics.failed_fallbacks + 1 })
        ⊎ ((use_provider request primary why next s).1.metrics ≡ record s.metrics {
          successful_fallbacks = s.metrics.successful_fallbacks + 1;
          by_reason = count_one (value why) s.metrics.by_reason;
          by_provider = count_one primary s.metrics.by_provider;
        })
  use_provider-metrics request primary why none s = inl refl
  use_provider-metrics request primary why (some name) s = ground arith

  use_provider-IsBalanced :
      (request : Request) (primary : String) (why : FallbackReason) (next : Option String)
      (s : Service Request Response)
      → s.metrics.total_fallback_attempts
        ≡ s.metrics.successful_fallbacks + s.metrics.failed_fallbacks + 1
      → total s.metrics.by_reason ≡ s.metrics.successful_fallbacks
      → total s.metrics.by_provider ≡ s.metrics.successful_fallbacks
      → IsBalanced (use_provider request primary why next s).1.metrics
  unfolding IsBalanced
  use_provider-IsBalanced request primary why next s e1 e2 e3 =
      elim (use_provider-metrics request primary why next s) [
        | inl failed ↦ rw (failed) (omega arith, e2, e3)
        | inr succeeded ↦ rw (succeeded) (
          omega arith,
          total-count_one (value why) s.metrics.by_reason ∙ ap (λ n. n + 1) e2,
          total-count_one primary s.metrics.by_provider ∙ ap (λ n. n + 1) e3,
        )
      ]

  execute_with_fallback-IsBalanced :
      (request : Request) (primary error_type circuit_state : String) (irreversible : Bool)
      (s : Service Request Response)
      → IsBalanced s.metrics
      → IsBalanced
          (execute_with_fallback request primary error_type circuit_state irreversible s).1.metrics
  unfolding IsBalanced
  execute_with_fallback-IsBalanced request primary error_type circuit_state irreversible s b =
      elim (execute_with_fallback-cases request primary error_type circuit_state irreversible s) [
        | inl (why, run) ↦ subst (λ x. IsBalanced x.1.metrics) (sym run) b
        | inr (allowed, run) ↦
            subst (λ x. IsBalanced x.1.metrics) (sym run)
              (use_provider-IsBalanced request primary _ _
                (attempted primary error_type circuit_state irreversible s) (omega (arith, b.0))
                (b.1) (b.2))
      ]

  apply-IsBalanced :
      (c : Call Request) (s : Service Request Response)
      → IsBalanced s.metrics
      → IsBalanced (apply c s).metrics
  unfolding apply can_fallback update_config
  apply-IsBalanced (execute request primary error_type circuit_state irreversible) s b =
      execute_with_fallback-IsBalanced request primary error_type circuit_state irreversible s b
  apply-IsBalanced (can primary error_type circuit_state irreversible) s b = b
  apply-IsBalanced (get primary) s b = b
  apply-IsBalanced (reset primary) s b = b
  apply-IsBalanced reset_all s b = b
  apply-IsBalanced (update config) s b = b

  apply_all-IsBalanced :
      (cs : List (Call Request)) (s : Service Request Response)
      → IsBalanced s.metrics
      → IsBalanced (apply_all cs s).metrics
  unfolding apply_all
  apply_all-IsBalanced [] s b = b
  apply_all-IsBalanced (c ∷ cs) s b = apply_all-IsBalanced cs (apply c s) (apply-IsBalanced c s b)

  -- After any calls of a new service, its metrics are balanced: each attempt counts as a success or
  -- as a failure, and the successes by reason and those by provider both sum to all of them.
  pub new_service-apply_all-IsBalanced :
      (registry : List (String × (Request → Result String Response))) (config : FallbackConfig)
      (cs : List (Call Request))
      → IsBalanced (apply_all cs (new_service registry config)).metrics
  unfolding total IsBalanced
  new_service-apply_all-IsBalanced registry config cs =
      apply_all-IsBalanced cs (new_service registry config) (refl, refl, refl)
