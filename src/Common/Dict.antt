-- ===== src/Common/Dict.antt =====
-- Python's `dict` with text keys: an association list in which each key stands once.
use Prim.Native.String.{String}
use mathlib.Core.Path.{◌≡◌, refl}
use mathlib.Core.Bool.{Bool, true, not, ◌&&◌}
use mathlib.Core.List.{List, [], ◌∷◌}
use mathlib.Core.Option.{Option, none, some}
use native.Mathlib.Omega.{arith}
use text.Mathlib.TextEquality.{eq_iff}
use aiagent_x.Common.Tests.{is_some, if◌then◌else◌}
use aiagent_x.Common.Text.{str_eq}

module _ {ℓ} {V : Type ℓ} where
  unfoldable pub lookup : String → List (String × V) → Option V
  lookup k [] = none
  lookup k ((j, v) ∷ d) = if str_eq j k then some v else lookup k d

  -- `d[k] = v`.
  unfoldable pub insert : String → V → List (String × V) → List (String × V)
  insert k v [] = (k, v) ∷ []
  insert k v ((j, w) ∷ d) = if str_eq j k then (j, v) ∷ d else (j, w) ∷ insert k v d

  -- `del d[k]`, for a key that is there, and nothing else.
  unfoldable pub remove : String → List (String × V) → List (String × V)
  remove k [] = []
  remove k ((j, w) ∷ d) = if str_eq j k then d else (j, w) ∷ remove k d

  pub lookup-insert :
      (k j : String) (v : V) (d : List (String × V))
      → lookup j (insert k v d) ≡ (if str_eq k j then some v else lookup j d)
  unfolding lookup insert
  lookup-insert k j v [] = refl
  lookup-insert k j v ((i, w) ∷ d) =
      ground (arith, eq_iff k j, eq_iff i k, eq_iff i j, lookup-insert k j v d)

  -- Each key stands once.
  unfoldable pub is_dict : List (String × V) → Bool
  is_dict [] = true
  is_dict ((k, v) ∷ d) = not (is_some (lookup k d)) && is_dict d

  pub is_dict-insert :
      (k : String) (v : V) (d : List (String × V))
      → is_dict d ≡ true
      → is_dict (insert k v d) ≡ true
  unfolding is_dict insert lookup
  is_dict-insert k v [] h = refl
  is_dict-insert k v ((j, w) ∷ d) h =
      ground (arith, h, eq_iff k j, eq_iff j k, lookup-insert k j v d, is_dict-insert k v d)

  pub lookup-remove :
      (k j : String) (d : List (String × V))
      → is_dict d ≡ true
      → lookup j (remove k d) ≡ (if str_eq k j then none else lookup j d)
  unfolding lookup remove is_dict
  lookup-remove k j [] h = ground arith
  lookup-remove k j ((i, w) ∷ d) h =
      ground (arith, h, eq_iff k j, eq_iff i k, eq_iff i j, lookup-remove k j d)

  pub is_dict-remove :
      (k : String) (d : List (String × V)) → is_dict d ≡ true → is_dict (remove k d) ≡ true
  unfolding is_dict remove
  is_dict-remove k [] h = refl
  is_dict-remove k ((j, w) ∷ d) h =
      ground (arith, h, eq_iff k j, eq_iff j k, lookup-remove k j d, is_dict-remove k d)

pub str_eq_refl : (s : String) → str_eq s s ≡ true
str_eq_refl s = (eq_iff s s).1 refl
