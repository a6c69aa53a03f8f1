-- ===== src/Workflow/Lines.antt =====
-- The lines of a purchase that a decision on parts makes are lines that a requisition accepts.
use fmms.Prelude.{
  ◌≡◌, refl, Bool, true, false, not, ◌&&◌, ◌||◌, [], ◌∷◌, Uuid, Text, Decimal, Text-discrete,
  text_truthy, strip, strip-strip, codes, length, leb, is, if◌then◌else◌, ok, err, arith,
  Bool-cases, inl, inr,
}
use fmms.Prelude.Decimals.{decimal_pos}
use fmms.Material.{MaterialRequestItem}
use fmms.Procurement.Values.{not_positive, material_number, quantity}
use fmms.Workflow.Purchases.{Alphabet}
use fmms.Workflow.Parts.{unit_or_each, line_fields}

abbrev zeros : Text
zeros = codes "000000000000000000"

-- A text that is stripped, of digits and short enough is a number of a material.
numbered :
    (digits : Text → Bool) (t : Text)
    → strip t ≡ t
    → digits [] ≡ false
    → digits t ≡ true
    → leb (length t) 18 ≡ true
    → material_number digits t ≡ ok t
unfolding material_number
numbered digits [] s e h k = ground (arith, e, h)
numbered digits (c ∷ t) s e h k = rw (s, h) (ground arith)

unit-strip : (u : Text) → strip u ≡ u → strip (unit_or_each u) ≡ unit_or_each u
unfolding unit_or_each strip Text-discrete
unit-strip u s = elim (Bool-cases (not (text_truthy u) || is Text-discrete u (codes "-"))) [
  | inl e ↦ rw e refl
  | inr e ↦ rw e s
]

unit-truthy : (u : Text) → text_truthy (unit_or_each u) ≡ true
unfolding unit_or_each Text-discrete
unit-truthy u = elim (Bool-cases (not (text_truthy u) || is Text-discrete u (codes "-"))) [
  | inl e ↦ rw e refl
  | inr e ↦ rw e (ground (arith, e))
]

zeros-strip : strip zeros ≡ zeros
unfolding strip
zeros-strip = refl

unit-accepted :
    (u : Text) (value : Decimal)
    → strip u ≡ u
    → text_truthy u ≡ true
    → quantity value u ≡ (
        if decimal_pos value
        then ok record { value = value; unit_of_measure = u }
        else err not_positive)
unfolding quantity
unit-accepted u value s t = elim (Bool-cases (decimal_pos value)) [
  | inl e ↦ rw (e, s, t) refl
  | inr e ↦ rw e refl
]

number-accepted :
    (digits : Text → Bool) (t : Text)
    → strip t ≡ t
    → digits [] ≡ false
    → digits zeros ≡ true
    → material_number digits (if digits t && leb (length t) 18 then t else zeros)
      ≡ ok (if digits t && leb (length t) 18 then t else zeros)
number-accepted digits t s e z = elim (Bool-cases (digits t && leb (length t) 18)) [
  | inl h ↦ rw h (numbered digits t s e (ground (arith, h)) (ground (arith, h)))
  | inr h ↦ rw h (numbered digits zeros zeros-strip e z refl)
]

-- Whatever the item of a request has for its material and its unit, the line that is made of it has a
-- material number and a unit that a requisition accepts as they are: the line is refused only for a
-- quantity that is not positive. Of `str.isdigit` it is assumed that it is false of the empty text
-- and true of eighteen zeros.
pub line_fields_accepted :
    (x : Alphabet) (id_of : Uuid → Uuid) (i : MaterialRequestItem)
    → x.digits [] ≡ false
    → x.digits (codes "000000000000000000") ≡ true
    → let d = line_fields x id_of i in
      (material_number x.digits d.material_number ≡ ok d.material_number)
      × (quantity d.quantity d.unit_of_measure ≡ (
          if decimal_pos i.quantity
          then ok record { value = i.quantity; unit_of_measure = d.unit_of_measure }
          else err not_positive))
unfolding line_fields
line_fields_accepted x id_of i e z = (
  number-accepted x.digits (strip i.material_number) (strip-strip i.material_number) e z,
  unit-accepted (unit_or_each (strip i.unit_of_measure)) i.quantity
      (unit-strip (strip i.unit_of_measure) (strip-strip i.unit_of_measure))
      (unit-truthy (strip i.unit_of_measure)),
)
