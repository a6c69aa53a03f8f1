-- ===== src/Prelude/Values.antt =====
-- The values of Python that the entities hold. A `uuid.UUID` is only compared, and a `datetime`
-- only stored and compared, so both are numbers; a `str` is its list of code points.
use Prim.Native.Nat.{ℕ}
use mathlib.Core.Bool.{Bool, true, false}
use mathlib.Core.Option.{Option, none, some}
use mathlib.Core.List.{List, [], ◌∷◌}
use native.Mathlib.Decide.{ℕ_discrete}

abbrev pub Uuid : Type 0
Uuid = ℕ

abbrev pub DateTime : Type 0
DateTime = ℕ

abbrev pub Text : Type 0
Text = List ℕ

unfoldable pub Text-discrete : Discrete Text
Text-discrete = hlevel ℕ_discrete

-- A `str` in a condition: the empty one is false.
abbrev pub text_truthy : Text → Bool
text_truthy [] = false
text_truthy (_ ∷ _) = true

-- A `str | None` in a condition.
abbrev pub truthy : Option Text → Bool
truthy none = false
truthy (some t) = text_truthy t

-- `orm.text or None`: the column holds "" for `None`.
abbrev pub blank_to_none : Option Text → Option Text
blank_to_none none = none
blank_to_none (some []) = none
blank_to_none (some (c ∷ t)) = some (c ∷ t)

-- `x is not None`.
abbrev pub is_some {ℓ} : {A : Type ℓ} → Option A → Bool
is_some none = false
is_some (some _) = true

-- `negsuc n` is -(n + 1).
pub data ℤ : Type 0 where
  pos : ℕ → ℤ
  negsuc : ℕ → ℤ

unfoldable pub ℤ-discrete : Discrete ℤ
ℤ-discrete = hlevel ℕ_discrete

-- A finite `decimal.Decimal`: its sign, its digits and its exponent.
pub record Decimal : Type 0 where
  pub negative : Bool
  pub digits : ℕ
  pub exponent : ℤ
