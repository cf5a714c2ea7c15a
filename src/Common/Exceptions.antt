-- ===== src/Common/Exceptions.antt =====
-- A method of a mutable object: from the object's state to a result or an exception, with the
-- state that it leaves behind in both cases (what a method assigned before it raised stays).
use mathlib.Core.Bool.{Bool, true, false}
use mathlib.Core.Logic.{◌⊎◌, inl, inr}
use mathlib.Core.Path.{◌≡◌, refl}

pub data Result (E A : Type 0) : Type 0 where
  ok : A → Result E A
  raise : E → Result E A

abbrev pub M : Type 0 → Type 0 → Type 0 → Type 0
M S E A = S → Result E A × S

abbrev pub bind_result : {S E A B : Type 0} → Result E A × S → (A → M S E B) → Result E B × S
bind_result (ok a, s) f = f a s
bind_result (raise e, s) f = (raise e, s)

infixl 5 ◌>>=◌ ◌>>◌
abbrev pub ◌>>=◌ : {S E A B : Type 0} → M S E A → (A → M S E B) → M S E B
◌>>=◌ m f s = bind_result (m s) f

abbrev pub ◌>>◌ : {S E A B : Type 0} → M S E A → M S E B → M S E B
◌>>◌ m k s = bind_result (m s) (λ _. k)

abbrev pub pure : {S E A : Type 0} → A → M S E A
pure a s = (ok a, s)

abbrev pub modify : {S E : Type 0} → (S → S) → M S E (Unit {0})
modify f s = (ok tt, f s)

-- `if test: raise e`.
abbrev pub raise_if : {S E : Type 0} → Bool → E → M S E (Unit {0})
raise_if true e s = (raise e, s)
raise_if false e s = (ok tt, s)

abbrev pub succeeded : {E A : Type 0} → Result E A → Bool
succeeded (ok a) = true
succeeded (raise e) = false

pub Result-cases :
    {E A : Type 0} (r : Result E A) → ((a : A) × (r ≡ ok a)) ⊎ ((e : E) × (r ≡ raise e))
Result-cases (ok a) = inl (a, refl)
Result-cases (raise e) = inr (e, refl)
