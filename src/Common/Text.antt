-- ===== src/Common/Text.antt =====
-- What the source uses of `str`: equality, emptiness and `strip`.
use Prim.Native.Nat.{ℕ}
use Prim.Native.Char.{code}
use Prim.Native.String.{String}
use mathlib.Core.Bool.{Bool, true, false, ◌&&◌, ◌||◌}
use mathlib.Core.List.{List, [], ◌∷◌}
use text.Mathlib.Text.{◌==◌ as string_eq}
use aiagent_x.Common.Tests.{leb, ◌==◌}

abbrev pub str_eq : String → String → Bool
str_eq a b = string_eq a b

-- `not s`.
abbrev pub is_empty : String → Bool
is_empty String.[] = true
is_empty (String.◌∷◌ c s) = false

-- The characters that `str.strip()` removes, by their code points.
abbrev pub is_space : ℕ → Bool
is_space c =
    (leb 9 c && leb c 13)
    || (leb 28 c && leb c 32)
    || c == 133
    || c == 160
    || c == 5760
    || (leb 8192 c && leb c 8202)
    || c == 8232
    || c == 8233
    || c == 8239
    || c == 8287
    || c == 12288

-- `not s.strip()`: nothing is left of the text.
abbrev pub is_blank : String → Bool
is_blank String.[] = true
is_blank (String.◌∷◌ c s) = is_space (code c) && is_blank s

-- `s in names`.
abbrev pub contains : List String → String → Bool
contains [] s = false
contains (n ∷ names) s = str_eq n s || contains names s
