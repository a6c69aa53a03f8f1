-- ===== src/Repair/Values.antt =====
-- The value objects of a repair, which check themselves (apps/repair/domain/value_objects.py).
use Prim.Native.Nat.{ℕ, zero, suc}
use fmms.Prelude.{
  Bool, true, false, not, ◌&&◌, Text, text_truthy, strip, length, ltb, ℤ, pos, negsuc, Decimal,
  Result, ok, err, if◌then◌else◌,
}
use fmms.Repair.Order.{PartQuantity, LaborHours}

-- The messages of the `ValueError`s.
pub data ValueError : Type 0 where
  material_empty unit_empty : ValueError
  material_too_long : ℕ → ValueError
  quantity_not_positive : ℤ → ValueError
  negative_hours : Decimal → ValueError

unfoldable pub is_positive : ℤ → Bool
is_positive (pos zero) = false
is_positive (pos (suc n)) = true
is_positive (negsuc n) = false

-- The checks of `PartQuantity.__post_init__`, on stripped texts.
unfoldable pub checked_quantity : Text → ℤ → Text → Result ValueError PartQuantity
unfolding is_positive
checked_quantity material quantity unit =
    if not (text_truthy material)
    then err material_empty
    else if ltb 18 (length material)
    then err (material_too_long (length material))
    else if not (is_positive quantity)
    then err (quantity_not_positive quantity)
    else if not (text_truthy unit)
    then err unit_empty
    else ok record { material_number = material; quantity = quantity; unit_of_measure = unit }

-- `PartQuantity(material_number=..., quantity=..., unit_of_measure=...)`
unfoldable pub part_quantity : Text → ℤ → Text → Result ValueError PartQuantity
unfolding checked_quantity
part_quantity material quantity unit = checked_quantity (strip material) quantity (strip unit)

-- `LaborHours(hours=...)`
unfoldable pub labor_hours : Decimal → Result ValueError LaborHours
labor_hours d =
    if d.negative && ltb 0 d.digits then err (negative_hours d) else ok record { hours = d }
