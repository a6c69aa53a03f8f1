-- ===== src/Vehicle/Values.antt =====
-- The value objects of a vehicle (apps/vehicle/domain/value_objects.py), and the validation of its
-- commissioning date (apps/vehicle/domain/entities.py). A constructor returns the text that the
-- object holds, or the `ValueError`. `str.isdigit` reads the character database of Python, which is
-- not modelled: `digits` stands for it.
use fmms.Prelude.{
  ◌≤◌, ◌≡◌, ◌≢◌, Bool, not, ◌||◌, Option, none, some, [], ◌==◌, Text, length, ltb, Result, ok, err,
  if◌then◌else◌, strip, strip-strip, text_truthy, arith,
}

pub data ValueError : Type 0 where
  empty_text too_long not_digits bad_date missing : ValueError

-- `PlateNumber`
unfoldable pub plate_number : Text → Result ValueError Text
plate_number value =
    let stripped = strip value in
    if not (text_truthy stripped)
    then err empty_text
    else if ltb 20 (length stripped)
    then err too_long
    else ok stripped

-- `SAPVehicleNumber`
unfoldable pub sap_vehicle_number : (Text → Bool) → Text → Result ValueError Text
sap_vehicle_number digits value =
    let stripped = strip value in
    if not (text_truthy stripped)
    then err empty_text
    else if not (digits stripped)
    then err not_digits
    else if ltb 18 (length stripped)
    then err too_long
    else ok stripped

-- `_validated_commissioning_date`
unfoldable pub validated_commissioning_date :
    (Text → Bool) → Option Text → Result ValueError (Option Text)
validated_commissioning_date digits none = ok none
validated_commissioning_date digits (some value) =
    let stripped = strip value in
    if not (text_truthy stripped)
    then ok none
    else if not (length stripped == 8) || not (digits stripped)
    then err bad_date
    else ok (some stripped)

-- What a plate number accepts is stripped, not empty and at most 20 characters long, and it accepts
-- that text again unchanged.
plate_number_valid :
    (value : Text) {plate : Text}
    → plate_number value ≡ ok plate
    → (strip plate ≡ plate) × (plate ≢ []) × (length plate ≤ 20) × (plate_number plate ≡ ok plate)
unfolding plate_number
plate_number_valid value {plate} h = ground (arith, strip-strip value)
