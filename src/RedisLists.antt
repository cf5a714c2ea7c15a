-- ===== src/RedisLists.antt =====
-- What the program relies on of Redis lists, as its documentation has it: `RPUSH`, `LTRIM key -n -1`,
-- `EXPIRE`, `DEL` and `LRANGE`, each at a time of the server's clock, in microseconds. An index -0 is
-- the first element. Keys that are not touched stay as they are.
use mathlib.Core.Path.{subst}
use aiagent_x.Common.Text.{str_eq}
use aiagent_x.Common.Dict.{str_eq_refl}
use aiagent_x.Common.{
  ap, ◌∙◌, String, Option, none, some, ℕ, zero, suc, ◌+◌, ◌-◌, ◌*◌, ◌≡◌, ◌≤◌, refl, arith, List, [],
  ◌∷◌, ◌++◌, ltb, length, drop, length-append, length-drop, if◌then◌else◌,
}

-- The last `n` elements; all of them for -0.
abbrev pub tail {ℓ} : {A : Type ℓ} → ℕ → List A → List A
tail zero xs = xs
tail (suc n) xs = drop (length xs - suc n) xs

pub record RedisLists (K V : Type 0) : Type 1 where
  pub State : Type 0
  pub rpush : (now : ℕ) → K → V → State → State
  pub ltrim_tail : (now : ℕ) → K → ℕ → State → State
  pub expire : (now : ℕ) → K → (ttl_seconds : ℕ) → State → State
  pub delete : K → State → State
  pub lrange_all : (now : ℕ) → K → State → List V
  pub lrange_tail : (now : ℕ) → K → ℕ → State → List V
  pub all-rpush :
      (now : ℕ) (k : K) (v : V) (s : State)
      → lrange_all now k (rpush now k v s) ≡ lrange_all now k s ++ v ∷ []
  pub all-ltrim_tail :
      (now n : ℕ) (k : K) (s : State)
      → lrange_all now k (ltrim_tail now k n s) ≡ tail n (lrange_all now k s)
  pub all-expire :
      (now later ttl : ℕ) (k : K) (s : State)
      → lrange_all later k (expire now k ttl s)
        ≡ (if ltb later (now + ttl * 1000000) then lrange_all now k s else [])
  pub all-delete : (now : ℕ) (k : K) (s : State) → lrange_all now k (delete k s) ≡ []
  pub tail-all :
      (now n : ℕ) (k : K) (s : State) → lrange_tail now k n s ≡ tail n (lrange_all now k s)

module _ {ℓ} {A : Type ℓ} where
  drop-append : (n : ℕ) (xs ys : List A) → n ≤ length xs → drop n (xs ++ ys) ≡ drop n xs ++ ys
  drop-append zero xs ys h = refl
  drop-append (suc n) [] ys h = ground (arith, h)
  drop-append (suc n) (x ∷ xs) ys h = drop-append n xs ys (omega (arith, h))

  drop-drop : (m n k : ℕ) (xs : List A) → k ≡ n + m → drop m (drop n xs) ≡ drop k xs
  drop-drop m zero k xs h = ap (λ i. drop i xs) (omega (arith, h))
  drop-drop zero (suc n) zero [] h = refl
  drop-drop (suc m) (suc n) zero [] h = refl
  drop-drop zero (suc n) (suc k) [] h = refl
  drop-drop (suc m) (suc n) (suc k) [] h = refl
  drop-drop m (suc n) zero (x ∷ xs) h = ground (arith, h)
  drop-drop m (suc n) (suc k) (x ∷ xs) h = drop-drop m n k xs (omega (arith, h))

  -- Keeping the last elements each time some are added keeps the last of all.
  pub tail-append :
      (n : ℕ) (xs ys : List A) → tail (suc n) (tail (suc n) xs ++ ys) ≡ tail (suc n) (xs ++ ys)
  tail-append n xs ys =
      let k = length xs - suc n in
      let e = drop-append k xs ys (omega arith) in
      subst (λ zs. drop (length zs - suc n) zs ≡ drop (length (xs ++ ys) - suc n) (xs ++ ys)) e
        (drop-drop (length (drop k (xs ++ ys)) - suc n) k (length (xs ++ ys) - suc n) (xs ++ ys)
          (omega (arith, length-drop k (xs ++ ys), length-append xs ys)))

-- A server that keeps for each key its list and, where it has one, the end of its time.
module _ (V : Type 0) where
  abbrev pub alive : ℕ → List V × Option ℕ → List V
  alive now (xs, none) = xs
  alive now (xs, some ends) = if ltb now ends then xs else []

  abbrev pub at :
      (String → List V × Option ℕ) → String → List V × Option ℕ → String → List V × Option ℕ
  at s k new j = if str_eq k j then new else s j

  -- What a change leaves of the end: none where the key had come to it.
  abbrev pub end_of : ℕ → List V × Option ℕ → Option ℕ
  end_of now (xs, none) = none
  end_of now (xs, some ends) = if ltb now ends then some ends else none

  pub alive-at :
      (now : ℕ) (s : String → List V × Option ℕ) (k : String) (new : List V × Option ℕ)
      → alive now (at s k new k) ≡ alive now new
  alive-at now s k new = ground (arith, str_eq_refl k)

  pub alive-end_of :
      (now : ℕ) (old : List V × Option ℕ) (xs : List V) → alive now (xs, end_of now old) ≡ xs
  alive-end_of now (ys, none) xs = refl
  alive-end_of now (ys, some ends) xs = ground arith

  abbrev pub list_table : RedisLists String V
  list_table = record {
    State = String → List V × Option ℕ;
    rpush = λ now k v s. at s k (alive now (s k) ++ v ∷ [], end_of now (s k));
    ltrim_tail = λ now k n s. at s k (tail n (alive now (s k)), end_of now (s k));
    expire = λ now k ttl s. at s k (alive now (s k), some (now + ttl * 1000000));
    delete = λ k s. at s k ([], none);
    lrange_all = λ now k s. alive now (s k);
    lrange_tail = λ now k n s. tail n (alive now (s k));
    all-rpush = λ now k v s.
        alive-at now s k (alive now (s k) ++ v ∷ [], end_of now (s k))
        ∙ alive-end_of now (s k) (alive now (s k) ++ v ∷ []);
    all-ltrim_tail = λ now n k s.
        alive-at now s k (tail n (alive now (s k)), end_of now (s k))
        ∙ alive-end_of now (s k) (tail n (alive now (s k)));
    all-expire =
        λ now later ttl k s. alive-at later s k (alive now (s k), some (now + ttl * 1000000));
    all-delete = λ now k s. alive-at now s k ([], none);
    tail-all = λ now n k s. refl;
  }
