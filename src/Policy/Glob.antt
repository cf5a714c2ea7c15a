-- ===== src/Policy/Glob.antt =====
-- `fnmatch.fnmatch(value, pattern)` of Python's standard library, as policy.py uses it on POSIX: `*`,
-- `?`, `[seq]` and `[!seq]` over the whole text. A `[` with no `]` behind it stands for itself.
use Prim.Native.Char.{code}
use aiagent_x.Common.{
  ℕ, zero, suc, String, Bool, true, false, List, [], ◌∷◌, ◌||◌, ◌&&◌, ◌==◌, leb, not, if◌then◌else◌,
  Option, none, some, length, ◌++◌,
}

pub data Piece : Type 0 where
  star one : Piece
  lit : ℕ → Piece
  set : Bool → List (ℕ × ℕ) → Piece

abbrev pub codes : String → List ℕ
codes String.[] = []
codes (String.◌∷◌ c s) = code c ∷ codes s

-- The ranges of a bracket's content: `c-d`, and a character alone is a range of one.
pub ranges : List ℕ → List (ℕ × ℕ)
ranges [] = []
ranges (c ∷ []) = (c, c) ∷ []
ranges (c ∷ d ∷ []) = (c, c) ∷ (d, d) ∷ []
ranges (c ∷ d ∷ e ∷ s) = elim (d == b'-') [
  | true ↦ (c, e) ∷ ranges s
  | false ↦ (c, c) ∷ ranges (d ∷ e ∷ s)
]

-- The text up to the next `]`, and what follows it.
pub close : List ℕ → List ℕ → Option (List ℕ × List ℕ)
close seen [] = none
close seen (c ∷ s) = elim (c == b']') [ true ↦ some (seen, s) | false ↦ close (seen ++ c ∷ []) s ]

-- A `]` that comes first belongs to the content.
pub bracket : List ℕ → Option (List ℕ × List ℕ)
unfolding close
bracket [] = none
bracket (c ∷ s) = if c == b']' then close (c ∷ []) s else close [] (c ∷ s)

pub set_of : Bool → Option (List ℕ × List ℕ) → Option (Piece × List ℕ)
unfolding ranges
set_of negated none = none
set_of negated (some (content, rest)) = some (set negated (ranges content), rest)

-- The piece behind a `[`.
pub open_set : List ℕ → Option (Piece × List ℕ)
unfolding bracket set_of
open_set [] = none
open_set (c ∷ s) = if c == b'!' then set_of true (bracket s) else set_of false (bracket (c ∷ s))

pub head_piece : ℕ → List ℕ → Piece × List ℕ
unfolding open_set
head_piece c s =
    if c == b'*'
    then (star, s)
    else if c == b'?'
    then (one, s)
    else if c == b'['
    then elim (open_set s) [ none ↦ (lit c, s) | some r ↦ r ]
    else (lit c, s)

-- Each piece takes at least one character, so the pattern's length is fuel enough.
pub pieces_within : ℕ → List ℕ → List Piece
unfolding head_piece
pieces_within zero s = []
pieces_within (suc fuel) [] = []
pieces_within (suc fuel) (c ∷ s) = let (p, rest) = head_piece c s in p ∷ pieces_within fuel rest

unfoldable pub pieces : String → List Piece
unfolding pieces_within
pieces pattern = let s = codes pattern in pieces_within (length s) s

abbrev pub in_ranges : ℕ → List (ℕ × ℕ) → Bool
in_ranges c [] = false
in_ranges c ((lo, hi) ∷ rs) = leb lo c && leb c hi || in_ranges c rs

abbrev pub takes : Piece → ℕ → Bool
takes star c = true
takes one c = true
takes (lit d) c = c == d
takes (set negated rs) c = if negated then not (in_ranges c rs) else in_ranges c rs

unfoldable pub matches : List Piece → List ℕ → Bool
matches [] [] = true
matches [] (c ∷ s) = false
matches (star ∷ ps) [] = matches ps []
matches (star ∷ ps) (c ∷ s) = elim (matches ps (c ∷ s)) [
  | true ↦ true
  | false ↦ matches (star ∷ ps) s
]
matches (p ∷ ps) [] = false
matches (p ∷ ps) (c ∷ s) = elim (takes p c) [ true ↦ matches ps s | false ↦ false ]

unfoldable pub fnmatch : String → String → Bool
unfolding matches pieces
fnmatch value pattern = matches (pieces pattern) (codes value)
