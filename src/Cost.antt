-- ===== src/Cost.antt =====
-- `CostCalculation` (app/domain/providers/value_objects.py) and `CostService`
-- (app/application/services/cost_service.py). A `Decimal` is read by its value, `coefficient`
-- divided by `scale`, a power of ten. The result of each operation is rounded by the decimal context,
-- which leaves a number alone that its 28 digits hold. Prices are not negative.
pub mod Rounding
pub mod Prices
use aiagent_x.Common.{
  ◌≡◌, ◌<◌, ◌^◌, ℕ, ◌+◌, ◌*◌, ◌/◌, ◌%◌, String, Bool, true, false, Option, none, some, List, [],
  ◌∷◌, ◌++◌, Result, ok, raise, ltb, ◌||◌, is_some, map, if◌then◌else◌,
}
use aiagent_x.Common.Int.{ℤ, is_neg, pos_part}
use aiagent_x.Common.Dict.{lookup, insert, remove}

pub record Decimal : Type 0 where
  pub coefficient : ℕ
  pub scale : ℕ

abbrev pub whole : ℕ → Decimal
whole n = record { coefficient = n; scale = 1 }

abbrev pub times : Decimal → Decimal → Decimal
times a b = record { coefficient = a.coefficient * b.coefficient; scale = a.scale * b.scale }

abbrev pub plus : Decimal → Decimal → Decimal
plus a b = record {
  coefficient = a.coefficient * b.scale + b.coefficient * a.scale;
  scale = a.scale * b.scale;
}

-- `x / Decimal("1_000_000")`.
abbrev pub millionth : Decimal → Decimal
millionth a = record { coefficient = a.coefficient; scale = a.scale * 1000000 }

-- How `to_integral_value` rounds in the default context: to the nearest, and a tie to the even neighbour.
abbrev pub nearest : (quotient rest scale : ℕ) → ℕ
nearest q r d = if ltb (2 * r) d then q else if ltb d (2 * r) then q + 1 else q + q % 2

unfoldable pub to_integral_value : Decimal → ℕ
to_integral_value a = nearest (a.coefficient / a.scale) (a.coefficient % a.scale) a.scale

pub data CostError : Type 0 where
  negative_tokens : CostError

pub record CostCalculation : Type 0 where
  pub provider : String
  pub model : String
  pub prompt_price_usd_per_1m : Decimal
  pub completion_price_usd_per_1m : Decimal

abbrev pub priced : String → String → Decimal → Decimal → CostCalculation
priced provider model prompt_price completion_price = record {
  provider = provider;
  model = model;
  prompt_price_usd_per_1m = prompt_price;
  completion_price_usd_per_1m = completion_price;
}

-- The context of Python's `decimal`, with its default precision.
pub record Context : Type 0 where
  pub round : Decimal → Decimal
  pub exact : (a : Decimal) → a.coefficient < 10 ^ 28 → round a ≡ a

module _ (context : Context) where
  open context use {round}

  abbrev pub cost_usd : (tokens : ℕ) → (price : Decimal) → Decimal
  cost_usd tokens price = round (millionth (round (times (whole tokens) price)))

  -- The cost in USD of tokens that are not negative.
  abbrev pub total_cost_usd : CostCalculation → (prompt completion : ℕ) → Decimal
  total_cost_usd c prompt completion = round (
      plus (cost_usd prompt c.prompt_price_usd_per_1m)
        (cost_usd completion c.completion_price_usd_per_1m))

  unfoldable pub calculate : CostCalculation → (prompt completion : ℤ) → Result CostError ℕ
  unfolding to_integral_value
  calculate c prompt completion =
      if is_neg prompt || is_neg completion
      then raise negative_tokens
      else ok (
          to_integral_value (
            round
              (times (total_cost_usd c (pos_part prompt) (pos_part completion)) (whole 1000000))))

-- The keys are the texts `provider:model`; `name` makes them.
module _ (context : Context) (name : String → String → String) where
  abbrev pub Prices : Type 0
  Prices = List (String × CostCalculation)

  abbrev pub default_pricing : String → String → CostCalculation
  default_pricing provider model =
      priced provider model (record { coefficient = 1; scale = 100 })
        (record { coefficient = 2; scale = 100 })

  abbrev pub or_default : String → String → Option CostCalculation → CostCalculation
  or_default provider model none = default_pricing provider model
  or_default provider model (some c) = c

  unfoldable pub get_pricing : String → String → Prices → Option CostCalculation
  get_pricing provider model prices = lookup (name provider model) prices

  unfoldable pub calculate_cost :
      String → String → (prompt completion : ℤ) → Prices → Result CostError ℕ
  unfolding calculate
  calculate_cost provider model prompt completion prices =
      calculate context (or_default provider model (lookup (name provider model) prices)) prompt
        completion

  unfoldable pub add_pricing : String → String → Decimal → Decimal → Prices → Prices
  add_pricing provider model prompt_price completion_price prices =
      insert (name provider model) (priced provider model prompt_price completion_price) prices

  unfoldable pub remove_pricing : String → String → Prices → Bool × Prices
  remove_pricing provider model prices =
      if is_some (lookup (name provider model) prices)
      then (true, remove (name provider model) prices)
      else (false, prices)
