-- ===== src/Fault/Values.antt =====
-- The value objects of a fault (apps/fault/domain/value_objects.py). A constructor returns the text
-- that the object holds, or the `ValueError`. `str.upper` reads the character database of Python,
-- which is not modelled: `upper` stands for it.
use fmms.Prelude.{
  ℕ, ◌≤◌, ◌≡◌, ◌≢◌, Bool, true, not, ◌&&◌, ◌||◌, [], ◌∷◌, ◌==◌, Text, length, ltb, leb, Result, ok,
  err, if◌then◌else◌, strip, strip-strip, text_truthy, arith,
}

pub data ValueError : Type 0 where
  bad_code empty_text : ValueError
  too_long : ℕ → ValueError

-- `[A-Z0-9\-]`
abbrev pub is_code_char : ℕ → Bool
is_code_char c = (leb 65 c && leb c 90) || (leb 48 c && leb c 57) || (c == 45)

unfoldable pub all_code_chars : Text → Bool
all_code_chars [] = true
all_code_chars (c ∷ t) = is_code_char c && all_code_chars t

-- `_PATTERN.match`, on a text with no white space at its end.
unfoldable pub matches_code : Text → Bool
unfolding all_code_chars
matches_code t = leb 3 (length t) && leb (length t) 20 && all_code_chars t

-- `FaultCode`
unfoldable pub fault_code : (Text → Text) → Text → Result ValueError Text
unfolding matches_code
fault_code upper value =
    let code = upper (strip value) in if matches_code code then ok code else err bad_code

-- The checks of `FaultDescription` and of `SAPDefectCode`, which differ in the limit.
unfoldable pub limited : ℕ → Text → Result ValueError Text
limited limit value =
    let stripped = strip value in
    if not (text_truthy stripped)
    then err empty_text
    else if ltb limit (length stripped)
    then err (too_long (length stripped))
    else ok stripped

-- `FaultDescription`
abbrev pub fault_description : Text → Result ValueError Text
fault_description = limited 500

-- `SAPDefectCode`
abbrev pub sap_defect_code : Text → Result ValueError Text
sap_defect_code = limited 30

-- A text that is accepted is stripped, not empty and within the limit.
pub limited_valid :
    (limit : ℕ) (value : Text) {t : Text}
    → limited limit value ≡ ok t
    → (strip t ≡ t) × (t ≢ []) × (length t ≤ limit)
unfolding limited
limited_valid limit value {t} h = ground (arith, strip-strip value)
