-- ===== src/Cost/Prices.antt =====
-- The price that a request is charged with (app/application/services/cost_service.py).
use aiagent_x.Common.{◌≡◌, arith, String, true, if◌then◌else◌}
use aiagent_x.Common.Int.{ℤ}
use aiagent_x.Common.Text.{str_eq}
use aiagent_x.Common.Dict.{
  insert, is_dict, is_dict-insert, lookup-insert, lookup-remove, str_eq_refl,
}
use aiagent_x.Cost.{
  Context, Decimal, Prices, calculate, priced, default_pricing, calculate_cost, add_pricing,
  remove_pricing,
}

module _ (context : Context) (name : String → String → String) where
  -- A price that is added is charged for each provider and model with the same key, and leaves the
  -- others' as they are.
  pub added_price :
      (provider model other other_model : String) (a b : Decimal) (x y : ℤ)
      (prices : Prices context name)
      → calculate_cost context name other other_model x y
          (add_pricing context name provider model a b prices)
        ≡ (if str_eq (name provider model) (name other other_model)
            then calculate context (priced provider model a b) x y
            else calculate_cost context name other other_model x y prices)
  unfolding calculate_cost add_pricing
  added_price provider model other other_model a b x y prices = ground (
    arith,
    lookup-insert (name provider model) (name other other_model) (priced provider model a b) prices,
  )

  -- Adding a price and removing it again, in a table where each key stands once: the default price is
  -- charged for the key, and what the other keys are charged is as it was.
  pub removed_price :
      (provider model other other_model : String) (a b : Decimal) (x y : ℤ)
      (prices : Prices context name)
      → is_dict prices ≡ true
      → calculate_cost context name other other_model x y
          (remove_pricing context name provider model
            (add_pricing context name provider model a b prices)).1
        ≡ (if str_eq (name provider model) (name other other_model)
            then calculate context (default_pricing context name other other_model) x y
            else calculate_cost context name other other_model x y prices)
  unfolding calculate_cost add_pricing remove_pricing
  removed_price provider model other other_model a b x y prices h =
      let new = priced provider model a b in
      ground (
        arith,
        h,
        lookup-insert (name provider model) (name other other_model) new prices,
        lookup-insert (name provider model) (name provider model) new prices,
        str_eq_refl (name provider model),
        lookup-remove (name provider model) (name other other_model)
            (insert (name provider model) new prices)
            (is_dict-insert (name provider model) new prices h),
      )
