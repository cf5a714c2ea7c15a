-- ===== src/Redis.antt =====
-- What the program relies on of a Redis server, as its documentation has it: `GET`, `SET … EX ttl`,
-- `DEL` on keys of type `K`. A key whose time is over reads as one that is not there. Times are
-- readings of the server's clock, in microseconds; `key_eq` decides equality of keys.
use aiagent_x.Common.{ℕ, ◌+◌, ◌*◌, ◌≡◌, arith, Bool, Option, none, some, ltb, if◌then◌else◌}

pub record Redis (K V : Type 0) (key_eq : K → K → Bool) : Type 1 where
  pub State : Type 0
  pub get : (now : ℕ) → K → State → Option V
  pub set : (now : ℕ) → K → V → (ttl_seconds : ℕ) → State → State
  pub delete : K → State → State
  pub get-set :
      (now later ttl : ℕ) (k j : K) (v : V) (s : State)
      → get later j (set now k v ttl s) ≡ (
          if key_eq k j
          then (if ltb later (now + ttl * 1000000) then some v else none)
          else get later j s)
  pub get-delete :
      (now : ℕ) (k j : K) (s : State)
      → get now j (delete k s) ≡ (if key_eq k j then none else get now j s)

-- A server that keeps for each key its value and the end of its time.
module _ (K V : Type 0) (key_eq : K → K → Bool) where
  abbrev pub stored : ℕ → Option (V × ℕ) → Option V
  stored now none = none
  stored now (some (v, deadline)) = if ltb now deadline then some v else none

  pub stored-if :
      (now : ℕ) (b : Bool) (x y : Option (V × ℕ))
      → stored now (if b then x else y) ≡ (if b then stored now x else stored now y)
  stored-if now b x y = ground arith

  abbrev pub table : Redis K V key_eq
  table = record {
    State = K → Option (V × ℕ);
    get = λ now k s. stored now (s k);
    set = λ now k v ttl s j. if key_eq k j then some (v, now + ttl * 1000000) else s j;
    delete = λ k s j. if key_eq k j then none else s j;
    get-set =
        λ now later ttl k j v s. stored-if later (key_eq k j) (some (v, now + ttl * 1000000)) (s j);
    get-delete = λ now k j s. stored-if now (key_eq k j) none (s j);
  }
