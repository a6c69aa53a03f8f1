-- ===== src/Prelude/Json.antt =====
-- The values of a `dict[str, Any]` that was read from JSON or is written to it.
use mathlib.Core.Bool.{Bool}
use fmms.Prelude.Values.{Text, Decimal}

mutual
  pub data Json : Type 0 where
    null : Json
    boolean : Bool → Json
    number : Decimal → Json
    text : Text → Json
    array : Elements → Json
    object : Payload → Json

  pub data Elements : Type 0 where
    nil : Elements
    cons : Json → Elements → Elements

  -- A dict, in insertion order.
  pub data Payload : Type 0 where
    empty : Payload
    entry : Text → Json → Payload → Payload
