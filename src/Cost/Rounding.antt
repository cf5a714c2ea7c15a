-- ===== src/Cost/Rounding.antt =====
-- The rounding of a cost (app/domain/providers/value_objects.py).
use aiagent_x.Common.{
  ap, ◌∙◌, ◌^◌, ℕ, ◌+◌, ◌*◌, ◌/◌, ◌%◌, ◌≤◌, ◌<◌, ◌≡◌, sym, ◌⊎◌, inl, inr, arith, ok,
}
use mathlib.Core.Path.{subst}
use native.Mathlib.Nat.{div-add-mod', mod-lt}
use aiagent_x.Common.Int.{pos}
use aiagent_x.Cost.{
  Context, cost_usd, millionth, plus, Decimal, CostCalculation, nearest, to_integral_value,
  calculate, whole, times, total_cost_usd,
}

-- `k` is a nearest integer to `n / d`.
abbrev pub IsNearest : (n d k : ℕ) → Type 0
IsNearest n d k = (2 * (k * d) ≤ 2 * n + d) × (2 * n ≤ 2 * (k * d) + d)

nearest-cases :
    (q r d : ℕ) → ((nearest q r d ≡ q) × (2 * r ≤ d)) ⊎ ((nearest q r d ≡ q + 1) × (d ≤ 2 * r))
nearest-cases q r d = ground arith

nearest-IsNearest : (n d q r : ℕ) → q * d + r ≡ n → r < d → IsNearest n d (nearest q r d)
nearest-IsNearest n d q r h h' = elim (nearest-cases q r d) [
  | inl (k, small) ↦ subst (IsNearest n d) (sym k) (omega arith, omega arith)
  | inr (k, big) ↦ subst (IsNearest n d) (sym k) (omega arith, omega arith)
]

to_integral_value-IsNearest :
    (a : Decimal) → 0 < a.scale → IsNearest a.coefficient a.scale (to_integral_value a)
unfolding to_integral_value
to_integral_value-IsNearest a h =
    nearest-IsNearest a.coefficient a.scale (a.coefficient / a.scale) (a.coefficient % a.scale)
      (div-add-mod' a.coefficient a.scale) (mod-lt a.coefficient h)

-- The scales of the division and of the multiplication by a million cancel.
unscale :
    (a b s t p c k : ℕ)
    → IsNearest
        ((p * a * (1 * t * 1000000) + c * b * (1 * s * 1000000)) * 1000000)
        (1 * s * 1000000 * (1 * t * 1000000) * 1)
        k
    → IsNearest (p * a * t + c * b * s) (s * t) k
unscale a b s t p c k (h, h') = (omega arith, omega arith)

pos_scale : (s t : ℕ) → 0 < s → 0 < t → 0 < 1 * s * 1000000 * (1 * t * 1000000) * 1
pos_scale s t h h' = grind arith

le-mul : (x t : ℕ) → 0 < t → x ≤ x * t
le-mul x t h = grind arith

-- Numbers that the digits of the context hold go through all operations as they are.
module _ (context : Context) where
  open context use {round, exact}

  cost_usd-exact :
      (p : ℕ) (price : Decimal)
      → p * price.coefficient < 10 ^ 28
      → cost_usd context p price ≡ millionth (times (whole p) price)
  cost_usd-exact p price h =
      ap (λ x. round (millionth x)) (exact (times (whole p) price) h)
      ∙ exact (millionth (times (whole p) price)) h

  total_cost_usd-exact :
      (calc : CostCalculation) (p c : ℕ)
      → let a = calc.prompt_price_usd_per_1m in
        let b = calc.completion_price_usd_per_1m in
        0 < a.scale
        → 0 < b.scale
        → p * a.coefficient * b.scale + c * b.coefficient * a.scale < 10 ^ 16
        → total_cost_usd context calc p c
          ≡ plus (millionth (times (whole p) a)) (millionth (times (whole c) b))
  total_cost_usd-exact calc p c h h' small =
      let a = calc.prompt_price_usd_per_1m in
      let b = calc.completion_price_usd_per_1m in
      let prompt =
        cost_usd-exact p a (omega (arith, small, le-mul (p * a.coefficient) b.scale h')) in
      let completion =
        cost_usd-exact c b (omega (arith, small, le-mul (c * b.coefficient) a.scale h)) in
      ap (λ x. round (plus x (cost_usd context c b))) prompt
      ∙ ap (λ x. round (plus (millionth (times (whole p) a)) x)) completion
      ∙ exact (plus (millionth (times (whole p) a)) (millionth (times (whole c) b)))
          (omega (arith, small))

-- The cost of token counts, each a natural number, is a number of micro-units nearest to the exact
-- one, which is the sum of both counts times their prices: with prices `a / s` and `b / t` and counts
-- p and c, the exact one is `(p * a * t + c * b * s) / (s * t)`, and the cost differs by half at most.
-- The numerator has to be below 10^16, so that no step needs more than the 28 digits of the context.
pub calculate-IsNearest :
    (context : Context) (calc : CostCalculation) (p c : ℕ)
    → 0 < calc.prompt_price_usd_per_1m.scale
    → 0 < calc.completion_price_usd_per_1m.scale
    → p * calc.prompt_price_usd_per_1m.coefficient * calc.completion_price_usd_per_1m.scale
        + c * calc.completion_price_usd_per_1m.coefficient * calc.prompt_price_usd_per_1m.scale
      < 10 ^ 16
    → let a = calc.prompt_price_usd_per_1m in
      let b = calc.completion_price_usd_per_1m in
      (cost : ℕ) × (calculate context calc (pos p) (pos c) ≡ ok cost)
      × IsNearest
          (p * a.coefficient * b.scale + c * b.coefficient * a.scale)
          (a.scale * b.scale)
          cost
unfolding calculate
calculate-IsNearest context calc p c h h' small =
    let a = calc.prompt_price_usd_per_1m in
    let b = calc.completion_price_usd_per_1m in
    let total =
      times (plus (millionth (times (whole p) a)) (millionth (times (whole c) b)))
        (whole 1000000) in
    let kept : Context.round context (times (total_cost_usd context calc p c) (whole 1000000))
        ≡ total =
      ap (λ x. Context.round context (times x (whole 1000000)))
        (total_cost_usd-exact context calc p c h h' small)
      ∙ Context.exact context total (omega (arith, small)) in
    let close = to_integral_value-IsNearest total (pos_scale a.scale b.scale h h') in
    (
      to_integral_value total,
      ap (λ x. ok (to_integral_value x)) kept,
      unscale a.coefficient b.coefficient a.scale b.scale p c (to_integral_value total) close,
    )
