-- ===== src/Provider/Service/Skipped.antt =====
-- The provider that a failed call falls back to (app/application/services/provider_service.py).
use aiagent_x.Common.{
  ℕ, suc, ◌%◌, ◌≡◌, refl, arith, String, Bool, true, false, Option, none, some, List, ◌∷◌, Result,
  ok, raise, length, get_elem?,
}
use aiagent_x.Common.Text.{str_eq, is_empty}
use aiagent_x.Common.Dict.{lookup, insert, lookup-insert, str_eq_refl}
use native.Mathlib.Nat.{mod-eq_of_lt}
use aiagent_x.Provider.Fallback.{
  Handler, count_of, is_error_type_fallbackable, should_fallback, create_fallback_decision,
  get_fallback_provider, validate_provider_compatibility,
}
use aiagent_x.Provider.Service.Served.{get_fallback_provider-config}
use aiagent_x.Provider.Service.{
  CallError, classify_error, Service, select_provider, answered, attempt_fallback, note_failure,
  decide, fail, after_call, guarded, complete,
}

one_mod : (n : ℕ) → 1 % suc (suc n) ≡ 1
one_mod n = mod-eq_of_lt (omega arith)

-- The handler with `n` for the count of the primary provider.
abbrev used : String → ℕ → Handler → Handler
used primary n h = record h { fallback_count = insert primary n h.fallback_count }

module _ (primary f0 f1 : String) (rest : List String) (m : ℕ) (h : Handler)
    (listed : h.config.fallback_providers ≡ f0 ∷ f1 ∷ rest)
    (attempts : h.config.max_fallback_attempts ≡ suc (suc m))
    (unused : lookup primary h.fallback_count ≡ none) where
  first_target : get_fallback_provider primary h ≡ (some f0, used primary 1 h)
  unfolding get_fallback_provider
  first_target = ground (arith, listed, attempts, unused)

  counted : count_of primary (used primary 1 h) ≡ 1
  counted = ground (arith, lookup-insert primary primary 1 h.fallback_count, str_eq_refl primary)

  second_elem :
      (count : ℕ)
      → count ≡ 1
      → get_elem? h.config.fallback_providers (count % length h.config.fallback_providers) ≡ some f1
  second_elem count one = rw (listed, one, one_mod (length rest)) refl

  second_target : (get_fallback_provider primary (used primary 1 h)).0 ≡ some f1
  unfolding get_fallback_provider
  second_target =
      ground (
        arith,
        listed,
        attempts,
        counted,
        second_elem (count_of primary (used primary 1 h)) counted,
      )

  decided :
      (error_type circuit_state : String)
      → is_error_type_fallbackable error_type ≡ true
      → is_empty f0 ≡ false
      → str_eq primary f0 ≡ false
      → let d = should_fallback primary error_type circuit_state false h in
        (d.0.should_fallback ≡ true) × (d.1 ≡ used primary 1 h)
  unfolding should_fallback create_fallback_decision validate_provider_compatibility
  decided error_type circuit_state kind named other =
      ground (arith, kind, named, other, first_target, listed, str_eq_refl f0)

module _ {Provider Request Response : Type 0} (provider_name : Provider → String)
    (latency_ms : Response → ℕ) (reached : String → ℕ → ℕ → Bool)
    (complete_of : Provider → Request → Result CallError Response) (f0 f1 : String)
    (rest : List String) (m : ℕ) where
  attempt_second :
      (request : Request) (primary : String) (s : Service Provider) (q : Provider)
      → s.handler.config.fallback_providers ≡ f0 ∷ f1 ∷ rest
      → (get_fallback_provider primary s.handler).0 ≡ some f1
      → is_empty f1 ≡ false
      → str_eq primary f1 ≡ false
      → lookup f1 s.registry.providers ≡ some q
      → (attempt_fallback provider_name latency_ms reached complete_of request primary s).0
        ≡ answered provider_name latency_ms reached complete_of (complete_of q request)
  unfolding attempt_fallback validate_provider_compatibility
  attempt_second request primary s q listed next named other at = ground (
    arith,
    listed,
    next,
    named,
    other,
    at,
    str_eq_refl f1,
    get_fallback_provider-config primary s.handler,
  )

  decide_second :
      (request : Request) (primary circuit_state : String) (e : CallError) (s : Service Provider)
      (q : Provider)
      → s.handler.config.fallback_providers ≡ f0 ∷ f1 ∷ rest
      → s.handler.config.max_fallback_attempts ≡ suc (suc m)
      → lookup primary s.handler.fallback_count ≡ none
      → is_error_type_fallbackable (classify_error e) ≡ true
      → (is_empty f0 ≡ false) × (str_eq primary f0 ≡ false)
      → (is_empty f1 ≡ false) × (str_eq primary f1 ≡ false)
      → lookup f1 s.registry.providers ≡ some q
      → (decide provider_name latency_ms reached complete_of request primary circuit_state e s).0
        ≡ answered provider_name latency_ms reached complete_of (complete_of q request)
  unfolding decide
  decide_second request primary circuit_state e s q listed attempts unused kind valid valid' at =
      let d =
        decided primary f0 f1 rest m s.handler listed attempts unused (classify_error e)
          circuit_state kind valid.0 valid.1 in
      let next = second_target primary f0 f1 rest m s.handler listed attempts unused in
      rw (d.0, d.1)
        (attempt_second request primary (record s { handler = used primary 1 s.handler }) q listed
          next valid'.0 valid'.1 at)

  -- A provider without a breaker whose first call fails with an error that allows a fallback, where two
  -- attempts or more are configured: the second fallback provider of the list answers, and the first
  -- one is passed over.
  pub first_fallback_skipped :
      (now : ℕ) (request : Request) (asked : Option String) (p q : Provider) (e : CallError)
      (s : Service Provider)
      → select_provider asked s ≡ ok p
      → lookup (provider_name p) s.breakers ≡ none
      → complete_of p request ≡ raise e
      → s.handler.config.fallback_providers ≡ f0 ∷ f1 ∷ rest
      → s.handler.config.max_fallback_attempts ≡ suc (suc m)
      → lookup (provider_name p) s.handler.fallback_count ≡ none
      → is_error_type_fallbackable (classify_error e) ≡ true
      → (is_empty f0 ≡ false) × (str_eq (provider_name p) f0 ≡ false)
      → (is_empty f1 ≡ false) × (str_eq (provider_name p) f1 ≡ false)
      → lookup f1 s.registry.providers ≡ some q
      → (complete provider_name latency_ms reached complete_of now request asked true s).0
        ≡ answered provider_name latency_ms reached complete_of (complete_of q request)
  unfolding complete guarded after_call fail note_failure
  first_fallback_skipped now request asked p q e s selects alone fails listed attempts unused kind
        valid valid' at =
      let name = provider_name p in
      rw (selects, complete, alone, guarded, fails, after_call, fail)
        (decide_second request name "closed" e
          (note_failure provider_name latency_ms reached complete_of now name none s) q listed
          attempts unused kind valid valid' at)
