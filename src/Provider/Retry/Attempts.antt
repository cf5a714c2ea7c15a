-- ===== src/Provider/Retry/Attempts.antt =====
-- Which call of a retried function decides, and what the handler slept before it
-- (app/infrastructure/providers/retry.py).
use aiagent_x.Common.{
  ◌==◌, ◌&&◌, ◌||◌, not, ltb, ◌⊎◌, ℕ, zero, suc, ◌+◌, ◌*◌, ◌^◌, ◌≤◌, ◌≡◌, inl, inr, refl, sym, ◌∙◌,
  Bool, true, false, Option, none, List, [], ◌∷◌, ◌++◌, arith, Result, ok, raise, leb, le→leb, min,
  length, All, if◌then◌else◌, Bool-cases, ap,
}
use mathlib.Core.Path.{subst}
use mathlib.Core.List.{append-nil, append_assoc}
use aiagent_x.Provider.Retry.{
  http_status, timeout_exception, connect_error, value_error, other, reads_retry_after, Exception,
  RetryPolicy, final, again, verdict_of, calculate_backoff, retry_loop, execute_with_retry,
  classify_error, error_of,
}

-- A 429 whose `Retry-After` is no integer, as a date is none: reading it raises `ValueError`.
abbrev pub is_unreadable : Exception → Bool
is_unreadable (http_status code retry_after) = code == 429 && not (reads_retry_after retry_after)
is_unreadable _ = false

-- Timeouts, failures to connect, 429 and the server's errors.
abbrev pub is_transient : Exception → Bool
is_transient timeout_exception = true
is_transient connect_error = true
is_transient (http_status code retry_after) =
    (code == 429 && reads_retry_after retry_after) || (leb 500 code && ltb code 600)
is_transient _ = false

abbrev pub is_transient_outcome : {A : Type 0} → Result Exception A → Bool
is_transient_outcome (ok a) = false
is_transient_outcome (raise e) = is_transient e

-- What the caller gets of a call's outcome: the value or the error of the call, or the `ValueError` of
-- an unreadable header in place of that error.
abbrev pub reported : {A : Type 0} → Result Exception A → Result Exception A
reported (ok a) = ok a
reported (raise e) = raise (if is_unreadable e then value_error else e)

-- A call's outcome is worth another call, by its classification.
pub is_retried : {A : Type 0} → Result Exception A → Bool
is_retried (ok a) = false
is_retried (raise e) = elim (classify_error e) [ raise e' ↦ false | ok p ↦ p.is_retryable ]

-- What a last call's outcome becomes: an error that cannot be classified is replaced by that one.
pub settled : {A : Type 0} → Result Exception A → Result Exception A
settled (ok a) = ok a
settled (raise e) = elim (classify_error e) [ raise e' ↦ raise e' | ok p ↦ raise e ]

is_retried-transient :
    {A : Type 0} → (r : Result Exception A) → is_retried r ≡ is_transient_outcome r
unfolding is_retried classify_error
is_retried-transient (ok a) = refl
is_retried-transient (raise timeout_exception) = refl
is_retried-transient (raise connect_error) = refl
is_retried-transient (raise value_error) = refl
is_retried-transient (raise (other message)) = refl
is_retried-transient (raise (http_status code retry_after)) = ground arith

settled-reported : {A : Type 0} → (r : Result Exception A) → settled r ≡ reported r
unfolding settled classify_error
settled-reported (ok a) = refl
settled-reported (raise timeout_exception) = refl
settled-reported (raise connect_error) = refl
settled-reported (raise value_error) = refl
settled-reported (raise (other message)) = refl
settled-reported (raise (http_status code retry_after)) = ground arith

last_verdict : {A : Type 0} → (r : Result Exception A) → verdict_of true r ≡ final (settled r)
unfolding settled
last_verdict (ok a) = refl
last_verdict (raise e) = ground arith

early_verdict :
    {A : Type 0}
    → (r : Result Exception A)
    → verdict_of false r ≡ (if is_retried r then again else final (settled r))
unfolding settled is_retried
early_verdict (ok a) = refl
early_verdict (raise e) = ground arith

module _ (uniform : ℕ → ℕ → ℕ) {A : Type 0} (policy : RetryPolicy) (func : ℕ → Result Exception A)
    (draws : ℕ → ℕ) where
  -- The number of the call that decides, from `attempt` on, where `left` of them may be retried.
  pub decider : (left attempt : ℕ) → ℕ
  decider zero attempt = attempt
  decider (suc left) attempt =
      let rest = decider left (attempt + 1) in if is_retried (func attempt) then rest else attempt

  -- The sleeps behind those that are retried.
  pub waits : (left attempt : ℕ) → List ℕ
  waits zero attempt = []
  waits (suc left) attempt =
      let rest = waits left (attempt + 1) in
      if is_retried (func attempt)
      then calculate_backoff uniform (draws attempt) attempt policy ∷ rest
      else []

  retry_loop-final :
      (left attempt : ℕ)
      → (last : Option Exception) → (sleeps : List ℕ) → (r : Result Exception A)
      → verdict_of (leb policy.max_retries attempt) (func attempt) ≡ final r
      → retry_loop uniform policy func draws (suc left) attempt last sleeps ≡ (r, sleeps)
  unfolding retry_loop
  retry_loop-final left attempt last sleeps r eq = ground arith

  retry_loop-again :
      (left attempt : ℕ)
      → (last : Option Exception) → (sleeps : List ℕ)
      → verdict_of (leb policy.max_retries attempt) (func attempt) ≡ again
      → retry_loop uniform policy func draws (suc left) attempt last sleeps
        ≡ retry_loop uniform policy func draws left
            (attempt + 1)
            (error_of (func attempt))
            (sleeps ++ calculate_backoff uniform (draws attempt) attempt policy ∷ [])
  unfolding retry_loop
  retry_loop-again left attempt last sleeps eq = ground arith

  retry_loop-settled :
      (left attempt : ℕ)
      → (last : Option Exception) → (sleeps : List ℕ) → attempt + left ≡ policy.max_retries
      → retry_loop uniform policy func draws (suc left) attempt last sleeps
        ≡ (settled (func (decider left attempt)), sleeps ++ waits left attempt)
  unfolding retry_loop decider waits
  retry_loop-settled zero attempt last sleeps eq =
      retry_loop-final zero attempt last sleeps (settled (func attempt)) (
        ap (λ b. verdict_of b (func attempt)) (le→leb policy.max_retries attempt (omega arith))
        ∙ last_verdict (func attempt))
      ∙ ap (λ l. (settled (func attempt), l)) (sym (append-nil sleeps))
  retry_loop-settled (suc left) attempt last sleeps eq =
      elim (Bool-cases (is_retried (func attempt))) [
        | inl retried ↦
            retry_loop-again (suc left) attempt last sleeps (early ∙ rw retried)
            ∙ retry_loop-settled left (attempt + 1) (error_of (func attempt))
                (sleeps ++ calculate_backoff uniform (draws attempt) attempt policy ∷ [])
                (omega arith)
            ∙ rw (retried, append_assoc sleeps)
        | inr kept ↦
            retry_loop-final (suc left) attempt last sleeps (settled (func attempt))
              (early ∙ rw kept)
            ∙ rw (kept, append-nil sleeps)
      ]
    where
      not_last : leb policy.max_retries attempt ≡ false
      not_last = ground arith

      early :
          verdict_of (leb policy.max_retries attempt) (func attempt)
          ≡ (if is_retried (func attempt) then again else final (settled (func attempt)))
      early = ap (λ b. verdict_of b (func attempt)) not_last ∙ early_verdict (func attempt)

  execute_with_retry_lem :
      execute_with_retry uniform policy func draws
      ≡ (settled (func (decider policy.max_retries 0)), waits policy.max_retries 0)
  unfolding execute_with_retry
  execute_with_retry_lem = retry_loop-settled policy.max_retries 0 none [] (omega arith)

  -- `n` calls from `attempt` on came to transient errors.
  unfoldable pub all_transient : (n attempt : ℕ) → Bool
  all_transient zero attempt = true
  all_transient (suc n) attempt =
      let rest = all_transient n (attempt + 1) in is_transient_outcome (func attempt) && rest

  decider_lem :
      (left attempt : ℕ)
      → (n : ℕ) × (n ≤ left)
        × (all_transient n attempt ≡ true)
        × (decider left attempt ≡ attempt + n)
        × (length (waits left attempt) ≡ n)
        × ((n ≡ left) ⊎ (is_transient_outcome (func (attempt + n)) ≡ false))
  unfolding decider waits all_transient
  decider_lem zero attempt = (0, omega arith, refl, omega arith, refl, inl refl)
  decider_lem (suc left) attempt = elim (Bool-cases (is_retried (func attempt))) [
    | inl retried ↦
        let (n, bound, before, here, slept, end) = decider_lem left (attempt + 1) in
        let shift : attempt + 1 + n ≡ attempt + suc n = omega arith in
        (
          suc n,
          omega (arith, bound),
          ground (arith, before, retried, is_retried-transient (func attempt)),
          ground (arith, retried, here),
          ground (arith, retried, slept),
          elim end [
            | inl last ↦ inl (omega (arith, last))
            | inr kept ↦ inr (ap (λ m. is_transient_outcome (func m)) (sym shift) ∙ kept)
          ],
        )
    | inr kept ↦
        let unmoved : attempt + 0 ≡ attempt = omega arith in
        (
          0,
          omega arith,
          refl,
          ground (arith, kept),
          ground (arith, kept),
          inr (
              ap (λ m. is_transient_outcome (func m)) unmoved
              ∙ sym (is_retried-transient (func attempt))
              ∙ kept),
        )
  ]

  -- One call, of number `n`, decides: the calls before it all came to a transient error, a timeout, a
  -- failure to connect, a 429 or an error of the server, and it did not or is the last one that the
  -- policy allows. Its value or its error is the result, but a `ValueError` takes the place of the error
  -- if that is a 429 whose `Retry-After` is no integer. The handler slept `n` times. The multiplier is a
  -- whole number whose powers a float holds.
  pub execute_with_retry-decider :
      (n : ℕ) × (n ≤ policy.max_retries)
      × (all_transient n 0 ≡ true)
      × ((n ≡ policy.max_retries) ⊎ (is_transient_outcome (func n) ≡ false))
      × ((execute_with_retry uniform policy func draws).0 ≡ reported (func n))
      × (length ((execute_with_retry uniform policy func draws).1) ≡ n)
  execute_with_retry-decider =
      let (n, bound, before, here, slept, end) = decider_lem policy.max_retries 0 in
      let from_zero : 0 + n ≡ n = omega arith in
      let decides : decider policy.max_retries 0 ≡ n = here ∙ from_zero in
      (
        n,
        bound,
        before,
        subst (λ m. (n ≡ policy.max_retries) ⊎ (is_transient_outcome (func m) ≡ false)) from_zero
            end,
        ap (λ x. x.0) execute_with_retry_lem
            ∙ ap (λ m. settled (func m)) decides
            ∙ settled-reported (func n),
        ap (λ x. length (x.1)) execute_with_retry_lem ∙ slept,
      )

  calculate_backoff_bound :
      ((capped draw : ℕ) → uniform capped draw ≤ capped)
      → (draw attempt : ℕ) → calculate_backoff uniform draw attempt policy ≤ policy.max_backoff_ms
  unfolding calculate_backoff
  calculate_backoff_bound within draw attempt = ground (
    arith,
    within
        (min (policy.initial_backoff_ms * policy.backoff_multiplier ^ attempt)
          policy.max_backoff_ms)
        draw,
  )

  waits-bounds :
      ((capped draw : ℕ) → uniform capped draw ≤ capped)
      → (left attempt : ℕ)
      → (length (waits left attempt) ≤ left)
        × All (λ sleep. sleep ≤ policy.max_backoff_ms) (waits left attempt)
  unfolding waits
  waits-bounds within zero attempt = (omega arith, tt)
  waits-bounds within (suc left) attempt =
      let rest = waits-bounds within left (attempt + 1) in
      elim (Bool-cases (is_retried (func attempt))) [
        | inl retried ↦
            rw (retried)
              (suc_bound (rest.0), (calculate_backoff_bound within (draws attempt) attempt, rest.1))
        | inr kept ↦ rw (kept) (omega arith, tt)
      ]
    where
      suc_bound : {m n : ℕ} → m ≤ n → suc m ≤ suc n
      suc_bound h = omega arith

  -- The handler sleeps at most as often as the policy allows retries, and, where
  -- `random.uniform(0, x)` stays within `x`, never longer than the policy's longest backoff.
  pub execute_with_retry-sleeps :
      ((capped draw : ℕ) → uniform capped draw ≤ capped)
      → (length ((execute_with_retry uniform policy func draws).1) ≤ policy.max_retries)
        × All
            (λ sleep. sleep ≤ policy.max_backoff_ms)
            ((execute_with_retry uniform policy func draws).1)
  execute_with_retry-sleeps within =
      rw (execute_with_retry_lem) (waits-bounds within policy.max_retries 0)
