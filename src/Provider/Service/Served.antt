-- ===== src/Provider/Service/Served.antt =====
-- Whose response `complete` returns (app/application/services/provider_service.py).
use aiagent_x.Common.{
  ℕ, ◌≡◌, refl, arith, ◌⊎◌, inl, inr, String, Bool, true, false, Option, none, some, List, Result,
  ok, raise, any, Option-cases, if◌then◌else◌,
}
use aiagent_x.Common.Text.{str_eq}
use aiagent_x.Common.Dict.{lookup, insert}
use aiagent_x.Provider.Breaker
use aiagent_x.Provider.Breaker.{Breaker}
use mathlib.Core.Path.{subst}
use aiagent_x.Provider.Fallback.{
  Handler, chosen, should_fallback, create_fallback_decision, get_fallback_provider,
  validate_provider_compatibility,
}
use aiagent_x.Provider.Service.{
  CallError, call_failed, classify_error, ServiceError, Service, select_provider, try_fallback,
  attempt_fallback, succeed, fail, after_call, if_allowed, guarded, complete, note_failure, decide,
  circuit_state_of, failed_breaker,
}

pub get_fallback_provider-config :
    (primary : String) (h : Handler) → (get_fallback_provider primary h).1.config ≡ h.config
unfolding get_fallback_provider
get_fallback_provider-config primary h = ground arith

should_fallback-config :
    (primary error_type circuit_state : String) (h : Handler)
    → (should_fallback primary error_type circuit_state false h).1.config ≡ h.config
unfolding should_fallback create_fallback_decision get_fallback_provider
should_fallback-config primary error_type circuit_state h = ground arith

ok-other :
    {E E' A : Type 0} (a b : A)
    → ◌≡◌ {A = Result E A} (ok a) (ok b)
    → ◌≡◌ {A = Result E' A} (ok a) (ok b)
ok-other a b h = ground (arith, h)

module _ {Provider Request Response : Type 0} (provider_name : Provider → String)
    (latency_ms : Response → ℕ) (reached : String → ℕ → ℕ → Bool)
    (complete_of : Provider → Request → Result CallError Response) where
  -- A registered provider of the configured list, other than the first one, gave the response.
  abbrev pub FromFallback :
      Request → String → Response → List (String × Provider) → (fallbacks : List String) → Type 0
  FromFallback request primary response providers fallbacks =
      (name : String) × (q : Provider) × (lookup name providers ≡ some q)
      × (any (λ f. str_eq f name) fallbacks ≡ true)
      × (str_eq primary name ≡ false)
      × (complete_of q request ≡ ok response)

  try_fallback-served :
      (request : Request) (primary : String) (o : Option String) (response : Response)
      (s : Service Provider)
      → (try_fallback provider_name latency_ms reached complete_of request primary o s).0
        ≡ ok response
      → FromFallback request primary response s.registry.providers
          s.handler.config.fallback_providers
  unfolding validate_provider_compatibility
  try_fallback-served request primary none response s h = ground (arith, h)
  try_fallback-served request primary (some name) response s h =
      elim (Option-cases (lookup name s.registry.providers)) [
        | inl e ↦ ground (arith, h, e)
        | inr (q, e) ↦
            (name, q, e, ground (arith, h, e), ground (arith, h, e), ground (arith, h, e))
      ]

  attempt_fallback-served :
      (request : Request) (primary : String) (response : Response) (s : Service Provider)
      → (attempt_fallback provider_name latency_ms reached complete_of request primary s).0
        ≡ ok response
      → FromFallback request primary response s.registry.providers
          s.handler.config.fallback_providers
  unfolding attempt_fallback
  attempt_fallback-served request primary response s h =
      let (next, handler) = get_fallback_provider primary s.handler in
      let (name, q, at, listed, other, gave) =
        try_fallback-served request primary (chosen next) response (record s { handler = handler })
          h in
      (
        name,
        q,
        at,
        subst (λ c. any (λ f. str_eq f name) c.fallback_providers ≡ true)
            (get_fallback_provider-config primary s.handler) listed,
        other,
        gave,
      )

  if-served :
      (b : Bool) (request : Request) (primary : String) (response : Response) (e : ServiceError)
      (s s' : Service Provider)
      → (if b
          then attempt_fallback provider_name latency_ms reached complete_of request primary s
          else (raise e, s')).0
        ≡ ok response
      → FromFallback request primary response s.registry.providers
          s.handler.config.fallback_providers
  if-served true request primary response e s s' h =
      attempt_fallback-served request primary response s h
  if-served false request primary response e s s' h = ground (arith, h)

  decide-served :
      (request : Request) (name circuit_state : String) (e : CallError) (response : Response)
      (s : Service Provider)
      → (decide provider_name latency_ms reached complete_of request name circuit_state e s).0
        ≡ ok response
      → FromFallback request name response s.registry.providers s.handler.config.fallback_providers
  unfolding decide
  decide-served request name circuit_state e response s h =
      let (decision, handler) =
        should_fallback name (classify_error e) circuit_state false s.handler in
      let s' = record s { handler = handler } in
      let (f, q, at, listed, other, gave) =
        if-served decision.should_fallback request name response (call_failed e) s' s' h in
      (
        f,
        q,
        at,
        subst (λ c. any (λ x. str_eq x f) c.fallback_providers ≡ true)
            (should_fallback-config name (classify_error e) circuit_state s.handler) listed,
        other,
        gave,
      )

  -- Recording a failure, or a success, changes neither the registry nor the handler.
  note_failure-keeps :
      (now : ℕ) (name : String) (breaker : Option Breaker) (s : Service Provider)
      → let s' = note_failure provider_name latency_ms reached complete_of now name breaker s in
        (s'.registry ≡ s.registry) × (s'.handler ≡ s.handler)
  unfolding note_failure
  note_failure-keeps now name none s = (refl, refl)
  note_failure-keeps now name (some b) s = (refl, refl)

  fail-served :
      (now : ℕ) (enable : Bool) (request : Request) (name : String) (breaker : Option Breaker)
      (e : CallError) (response : Response) (s : Service Provider)
      → (fail provider_name latency_ms reached complete_of now enable request name breaker e s).0
        ≡ ok response
      → FromFallback request name response s.registry.providers s.handler.config.fallback_providers
  unfolding fail note_failure
  fail-served now false request name breaker e response s h = ground (arith, h)
  fail-served now true request name none e response s h =
      decide-served request name (circuit_state_of none) e response
        (note_failure provider_name latency_ms reached complete_of now name none s) h
  fail-served now true request name (some b) e response s h =
      decide-served request name
        (circuit_state_of
          (failed_breaker provider_name latency_ms reached complete_of now name (some b)))
        e response (note_failure provider_name latency_ms reached complete_of now name (some b) s) h

  after_call-served :
      (now : ℕ) (enable : Bool) (request : Request) (name : String) (breaker : Option Breaker)
      (result : Result CallError Response) (response : Response) (s : Service Provider)
      → (after_call provider_name latency_ms reached complete_of now enable request name breaker
          result s).0
        ≡ ok response
      → (result ≡ ok response)
        ⊎ FromFallback request name response s.registry.providers
            s.handler.config.fallback_providers
  unfolding succeed after_call
  after_call-served now enable request name breaker (ok r) response s h =
      inl (ok-other r response h)
  after_call-served now enable request name breaker (raise e) response s h =
      inr (fail-served now enable request name breaker e response s h)

  if_allowed-served :
      (now : ℕ) (enable : Bool) (request : Request) (p : Provider) (allowed : Bool) (b : Breaker)
      (response : Response) (s : Service Provider)
      → (if_allowed provider_name latency_ms reached complete_of now enable request p allowed b s).0
        ≡ ok response
      → (complete_of p request ≡ ok response)
        ⊎ FromFallback request
            (provider_name p)
            response
            s.registry.providers
            s.handler.config.fallback_providers
  unfolding if_allowed
  if_allowed-served now enable request p true b response s h =
      after_call-served now enable request (provider_name p) (some b) (complete_of p request)
        response s h
  if_allowed-served now true request p false b response s h =
      inr (attempt_fallback-served request (provider_name p) response s h)
  if_allowed-served now false request p false b response s h = ground (arith, h)

  guarded-served :
      (now : ℕ) (enable : Bool) (request : Request) (p : Provider) (o : Option Breaker)
      (response : Response) (s : Service Provider)
      → (guarded provider_name latency_ms reached complete_of now enable request p o s).0
        ≡ ok response
      → (complete_of p request ≡ ok response)
        ⊎ FromFallback request
            (provider_name p)
            response
            s.registry.providers
            s.handler.config.fallback_providers
  unfolding guarded
  guarded-served now enable request p none response s h =
      after_call-served now enable request (provider_name p) none (complete_of p request) response s
        h
  guarded-served now enable request p (some b) response s h =
      let (allowed, b') = Breaker.can_execute now b in
      if_allowed-served now enable request p allowed b' response
        (record s { breakers = insert (provider_name p) b' s.breakers }) h

  -- A response that `complete` returns is the selected provider's, or that of another registered
  -- provider of the configured fallback list.
  pub complete-served :
      (now : ℕ) (request : Request) (asked : Option String) (enable : Bool) (p : Provider)
      (response : Response) (s : Service Provider)
      → select_provider asked s ≡ ok p
      → (complete provider_name latency_ms reached complete_of now request asked enable s).0
        ≡ ok response
      → (complete_of p request ≡ ok response)
        ⊎ FromFallback request
            (provider_name p)
            response
            s.registry.providers
            s.handler.config.fallback_providers
  unfolding complete
  complete-served now request asked enable p response s selects h =
      guarded-served now enable request p (lookup (provider_name p) s.breakers) response s
        (rw (selects, complete) at h)
