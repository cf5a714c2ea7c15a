-- ===== src/Common/Value.antt =====
-- The values of `dict[str, Any]`: JSON, with a float kept by its literal.
use Prim.Native.String.{String}
use mathlib.Core.Bool.{Bool}
use aiagent_x.Common.Int.{ℤ}

mutual
  pub data Value : Type 0 where
    null : Value
    bool : Bool → Value
    int : ℤ → Value
    float : String → Value
    text : String → Value
    list : Items → Value
    dict : Fields → Value

  pub data Items : Type 0 where
    nil : Items
    cons : Value → Items → Items

  pub data Fields : Type 0 where
    end : Fields
    field : String → Value → Fields → Fields
