-- ===== src/Procurement/Values.antt =====
-- The value objects of a purchase (apps/procurement/domain/value_objects.py), by the texts and
-- numbers that they hold. `str.isdigit` and `str.upper` are parameters.
use fmms.Prelude.{
  ℕ, Bool, false, not, ◌&&◌, [], ◌∷◌, Text, Decimal, length, ltb, leb, Result, ok, err,
  if◌then◌else◌, strip, text_truthy,
}
use fmms.Prelude.Decimals.{decimal_pos}

pub record Quantity : Type 0 where
  pub value : Decimal
  pub unit_of_measure : Text

pub record Money : Type 0 where
  pub amount : Decimal
  pub currency : Text

-- The messages of the `ValueError`s.
pub data ValueError : Type 0 where
  empty_text not_digits too_long not_positive negative_amount bad_currency : ValueError

-- `MaterialNumber`
unfoldable pub material_number : (Text → Bool) → Text → Result ValueError Text
material_number digits value =
    let stripped = strip value in
    if not (text_truthy stripped)
    then err empty_text
    else if not (digits stripped)
    then err not_digits
    else if ltb 18 (length stripped)
    then err too_long
    else ok stripped

-- `Quantity(value=..., unit_of_measure=...)`
unfoldable pub quantity : Decimal → Text → Result ValueError Quantity
unfolding decimal_pos
quantity value unit =
    let stripped = strip unit in
    if not (decimal_pos value)
    then err not_positive
    else if not (text_truthy stripped)
    then err empty_text
    else ok record { value = value; unit_of_measure = stripped }

abbrev pub is_capital : ℕ → Bool
is_capital c = leb 65 c && leb c 90

-- `^[A-Z]{3}$`, on a text with no white space at its end.
unfoldable pub is_currency : Text → Bool
is_currency (a ∷ b ∷ c ∷ []) = is_capital a && is_capital b && is_capital c
is_currency _ = false

-- `Money(amount=..., currency=...)`
unfoldable pub money : (Text → Text) → Decimal → Text → Result ValueError Money
unfolding is_currency
money upper amount currency =
    let code = upper (strip currency) in
    if amount.negative && ltb 0 amount.digits
    then err negative_amount
    else if not (is_currency code)
    then err bad_currency
    else ok record { amount = amount; currency = code }

-- `VendorNumber`
unfoldable pub vendor_number : Text → Result ValueError Text
vendor_number value =
    let stripped = strip value in
    if not (text_truthy stripped)
    then err empty_text
    else if ltb 10 (length stripped)
    then err too_long
    else ok stripped

-- `SAPDocumentNumber`
unfoldable pub sap_document_number : Text → Result ValueError Text
sap_document_number value =
    let stripped = strip value in
    if not (text_truthy stripped)
    then err empty_text
    else if ltb 10 (length stripped)
    then err too_long
    else ok stripped
