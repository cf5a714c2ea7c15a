-- ===== src/TextTools/Truncate.antt =====
-- `TextNormalizer.truncate` and `validate_size` (app/infrastructure/text/normalizer.py). A code point
-- that is half of a surrogate pair, which UTF-8 refuses, is left out.
use aiagent_x.Common.{
  ℕ, zero, suc, ◌+◌, ◌-◌, ◌/◌, ◌≤◌, ◌<◌, ◌≡◌, ◌⊎◌, inl, inr, refl, Bool, true, false, Option, none,
  some, List, [], ◌∷◌, arith, ltb, leb, ◌==◌, if◌then◌else◌, length, take, Result, ok, raise,
  Bool-cases,
}

-- The bytes of a code point in UTF-8.
abbrev pub width : ℕ → ℕ
width c = if ltb c 128 then 1 else if ltb c 2048 then 2 else if ltb c 65536 then 3 else 4

-- `len(text.encode("utf-8"))`.
unfoldable pub size : List ℕ → ℕ
size [] = 0
size (c ∷ text) = width c + size text

abbrev pub max_memory_size : ℕ
max_memory_size = 100000

-- `max_size or TextNormalizer.MAX_MEMORY_SIZE`.
abbrev pub limit_of : Option ℕ → ℕ
limit_of none = max_memory_size
limit_of (some n) = if n == 0 then max_memory_size else n

pub data SizeError : Type 0 where
  exceeds : (size limit : ℕ) → SizeError

unfoldable pub validate_size : List ℕ → Option ℕ → Result SizeError Bool
validate_size text max_size =
    if ltb (limit_of max_size) (size text)
    then raise (exceeds (size text) (limit_of max_size))
    else ok true

abbrev pub fits : ℕ → List ℕ → ℕ → Bool
fits limit text n = leb (size (take n text)) limit

-- The binary search; `none` if the fuel runs out.
unfoldable pub search_point : (fuel limit : ℕ) → List ℕ → (low high : ℕ) → Option ℕ
search_point zero limit text low high = none
search_point (suc fuel) limit text low high =
    let mid = (low + high + 1) / 2 in
    let right = search_point fuel limit text mid high in
    let left = search_point fuel limit text low (mid - 1) in
    if ltb low high then (if fits limit text mid then right else left) else some low

abbrev pub cut : List ℕ → Option ℕ → Option (List ℕ)
cut text none = none
cut text (some n) = some (take n text)

unfoldable pub truncate : List ℕ → Option ℕ → Option (List ℕ)
truncate text max_size =
    let limit = limit_of max_size in
    if leb (size text) limit
    then some text
    else cut text (search_point (length text + 1) limit text 0 (length text))

take-all : (text : List ℕ) (n : ℕ) → length text ≤ n → take n text ≡ text
take-all [] zero h = refl
take-all [] (suc n) h = refl
take-all (c ∷ text) zero h = ground arith
take-all (c ∷ text) (suc n) h = ground (arith, take-all text n)

size-take_mono : (text : List ℕ) (m n : ℕ) → m ≤ n → size (take m text) ≤ size (take n text)
unfolding size
size-take_mono text zero n h = ground arith
size-take_mono [] (suc m) (suc n) h = ground arith
size-take_mono (c ∷ text) (suc m) (suc n) h = ground (arith, size-take_mono text m n)
size-take_mono text (suc m) zero h = ground arith

-- The search keeps that `low` fits and that what is longer than `high` does not, and ends.
search_point_lem :
    (fuel limit : ℕ) (text : List ℕ) (low high : ℕ)
    → high < low + fuel
    → low ≤ high
    → fits limit text low ≡ true
    → fits limit text (high + 1) ≡ false
    → (n : ℕ) × (search_point fuel limit text low high ≡ some n)
      × (fits limit text n ≡ true)
      × (fits limit text (n + 1) ≡ false)
unfolding search_point
search_point_lem zero limit text low high f h a b = absurd (omega arith)
search_point_lem (suc fuel) limit text low high f h a b =
    let mid = (low + high + 1) / 2 in
    elim (Bool-cases (ltb low high)) [
      | inr done ↦ let e : high ≡ low = ground arith in (low, ground arith, a, rw e at b)
      | inl more ↦ elim (Bool-cases (fits limit text mid)) [
        | inl fine ↦
            let (n, e, p, q) =
              search_point_lem fuel limit text mid high (ground arith) (ground arith) fine b in
            (n, ground arith, p, q)
        | inr large ↦
            let next : mid - 1 + 1 ≡ mid = ground arith in
            let (n, e, p, q) =
              search_point_lem fuel limit text low (mid - 1) (ground arith) (ground arith) a
                (rw next large) in
            (n, ground arith, p, q)
      ]
    ]

-- The cut always ends with a beginning of the text that fits into the limit, and the longest one:
-- any beginning, of `m` code points, is no longer, or the same text, or does not fit.
pub truncate_longest :
    (text : List ℕ) (max_size : Option ℕ) (m : ℕ)
    → (n : ℕ) × (truncate text max_size ≡ some (take n text))
      × (size (take n text) ≤ limit_of max_size)
      × ((m ≤ n) ⊎ (take m text ≡ take n text) ⊎ (limit_of max_size < size (take m text)))
unfolding truncate size
truncate_longest text max_size m =
    let limit = limit_of max_size in
    elim (Bool-cases (leb (size text) limit)) [
      | inl fits' ↦ (
        length text,
        ground (arith, take-all text (length text)),
        ground (arith, take-all text (length text)),
        ground (arith, take-all text (length text), take-all text m),
      )
      | inr large ↦
          let (n, e, p, q) =
            search_point_lem (length text + 1) limit text 0 (length text) (omega arith)
              (omega arith) (ground arith) (ground (arith, take-all text (length text + 1))) in
          (n, ground arith, ground arith, ground (arith, size-take_mono text (n + 1) m))
    ]
