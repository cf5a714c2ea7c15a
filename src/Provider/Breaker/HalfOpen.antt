-- ===== src/Provider/Breaker/HalfOpen.antt =====
-- The trial of a half-open breaker (circuit_breaker.py).
use aiagent_x.Common.{
  ℕ, suc, ◌+◌, ◌<◌, ◌≡◌, refl, Bool, true, List, [], ◌∷◌, arith, ◌==◌, if◌then◌else◌, leb, all,
  length,
}
use aiagent_x.Provider.Breaker.{
  Breaker, closed, open', half_open, record_success, record_failure, can_execute,
}

-- One success after another.
pub successes : List ℕ → Breaker → Breaker
successes [] b = b
successes (now ∷ times) b = successes times (record_success now b)

success_step :
    (now : ℕ) (b : Breaker)
    → b.state ≡ half_open
    → let b' = record_success now b in
      (b'.config ≡ b.config)
      × (b'.state ≡ (
          if leb b.config.half_open_max_calls (b.half_open_calls + 1) then closed else half_open))
      × (suc b.half_open_calls < b.config.half_open_max_calls
          → b'.half_open_calls ≡ suc b.half_open_calls)
unfolding record_success
success_step now b h = ground arith

success_closed : (now : ℕ) (b : Breaker) → b.state ≡ closed → (record_success now b).state ≡ closed
unfolding record_success
success_closed now b h = ground arith

successes_closed :
    (times : List ℕ) (b : Breaker) → b.state ≡ closed → (successes times b).state ≡ closed
unfolding successes
successes_closed [] b h = h
successes_closed (now ∷ times) b h =
    successes_closed times (record_success now b) (success_closed now b h)

-- A half-open breaker closes after exactly as many successes in a row as its maximum of trial calls
-- asks for, those counted already included, and stays half open before.
pub successes-state :
    (times : List ℕ) (b : Breaker)
    → b.state ≡ half_open
    → b.half_open_calls < b.config.half_open_max_calls
    → (successes times b).state ≡ (
        if leb b.config.half_open_max_calls (b.half_open_calls + length times)
        then closed
        else half_open)
unfolding successes
successes-state [] b h v = ground arith
successes-state (now ∷ times) b h v = ground (
  arith,
  success_step now b h,
  successes_closed times (record_success now b),
  successes-state times (record_success now b),
)

-- One failure opens a half-open breaker again, whatever the failure rate.
pub failure_reopens :
    (reached : ℕ → ℕ → Bool) (now : ℕ) (b : Breaker)
    → b.state ≡ half_open
    → let b' = record_failure reached now b in
      (b'.state ≡ open') × ((can_execute now b').0 ≡ (b.config.open_timeout_seconds == 0))
unfolding record_failure can_execute
failure_reopens reached now b h = ground arith

-- The answers to requests for leave that come one after another.
pub asks : List ℕ → Breaker → List Bool × Breaker
asks [] b = ([], b)
asks (now ∷ times) b =
    let (answer, b') = can_execute now b in
    let (answers, b'') = asks times b' in (answer ∷ answers, b'')

half_open_ask :
    (now : ℕ) (b : Breaker)
    → b.state ≡ half_open
    → b.half_open_calls < b.config.half_open_max_calls
    → can_execute now b ≡ (true, b)
unfolding can_execute
half_open_ask now b h v = ground arith

-- Until an outcome is recorded, a half-open breaker lets every request through, however many ask:
-- leave that was given is not counted against the maximum of trial calls.
pub half_open_unlimited :
    (times : List ℕ) (b : Breaker)
    → b.state ≡ half_open
    → b.half_open_calls < b.config.half_open_max_calls
    → (all (λ x. x) (asks times b).0 ≡ true)
      × ((asks times b).1 ≡ b)
      × (length (asks times b).0 ≡ length times)
unfolding asks
half_open_unlimited [] b h v = (refl, refl, refl)
half_open_unlimited (now ∷ times) b h v =
    rw (half_open_ask now b h v)
      (let (p, q, r) = half_open_unlimited times b h v in (p, q, omega (arith, r)))
