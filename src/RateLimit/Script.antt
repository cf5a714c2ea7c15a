-- ===== src/RateLimit/Script.antt =====
-- The Lua scripts of app/infrastructure/cache/rate_limiter.py, on one key of the server: its number
-- and the time at which it ends, in milliseconds of the server's clock.
use aiagent_x.Common.{
  ℕ, ◌+◌, ◌-◌, ◌*◌, ◌≡◌, min, max, arith, true, Option, none, some, List, [], ◌∷◌, length, ltb, leb,
  all, if◌then◌else◌,
}

pub record Counter : Type 0 where
  pub count : ℕ
  pub ends : ℕ

abbrev live : (clock : ℕ) → Option Counter → Option Counter
live clock none = none
live clock (some c) = if ltb clock c.ends then some c else none

-- `RATE_LIMIT_SCRIPT`: the first two numbers of its reply, and the key afterwards.
unfoldable pub rate_limit_script :
    (limit window clock : ℕ) → Option Counter → (ℕ × ℕ) × Option Counter
rate_limit_script limit window clock key = elim (live clock key) [
  | none ↦ ((1, limit), some (record { count = 1; ends = clock + window * 1000 }))
  | some c ↦
      if leb limit c.count
      then ((0, 0), some c)
      else ((c.count + 1, limit - (c.count + 1)), some (record c { count = c.count + 1 }))
]

-- How many of the requests at the given times a script allows: a first number above zero does.
unfoldable pub allowed_count : (limit window : ℕ) → List ℕ → Option Counter → ℕ
unfolding rate_limit_script
allowed_count limit window [] key = 0
allowed_count limit window (t ∷ times) key =
    let (reply, key') = rate_limit_script limit window t key in
    (if ltb 0 reply.0 then 1 else 0) + allowed_count limit window times key'

counted :
    (limit window n ends : ℕ) (times : List ℕ)
    → all (λ t. ltb t ends) times ≡ true
    → allowed_count limit window times (some (record { count = n; ends = ends }))
      ≡ min (length times) (limit - n)
unfolding allowed_count rate_limit_script
counted limit window n ends [] h = omega arith
counted limit window n ends (t ∷ times) h =
    ground (arith, h, counted limit window (n + 1) ends times, counted limit window n ends times)

-- The script, from a key that is not there, allows the limit's number of requests in one window, or
-- all of them where they are fewer, but the first of them in any case.
pub window_allows :
    (limit window first : ℕ) (times : List ℕ)
    → all (λ t. ltb t (first + window * 1000)) times ≡ true
    → allowed_count limit window (first ∷ times) none ≡ min (length (first ∷ times)) (max 1 limit)
unfolding allowed_count rate_limit_script
window_allows limit window first times h =
    ground (arith, counted limit window 1 (first + window * 1000) times h)
