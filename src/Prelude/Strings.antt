-- ===== src/Prelude/Strings.antt =====
-- `str.strip` of Python, over code points.
use Prim.Native.Nat.{ℕ}
use mathlib.Core.Path.{◌≡◌, refl}
use mathlib.Core.Logic.{inl, inr}
use mathlib.Core.Bool.{Bool, false}
use mathlib.Core.List.{[], ◌∷◌}
use native.Mathlib.Decide.{ℕ_discrete}
use fmms.Prelude.Tests.{member, if◌then◌else◌, Bool-cases}
use fmms.Prelude.Values.{Text}

-- The characters that `str.strip` removes: those with the Unicode property of white space, and the
-- four separators U+001C to U+001F.
unfoldable pub is_space : ℕ → Bool
unfolding ℕ_discrete
is_space c = member ℕ_discrete c (
    9 ∷ 10 ∷ 11 ∷ 12 ∷ 13 ∷ 28 ∷ 29 ∷ 30 ∷ 31 ∷ 32 ∷ 133 ∷ 160 ∷ 5760 ∷ 8192 ∷ 8193 ∷ 8194 ∷ 8195
    ∷ 8196 ∷ 8197 ∷ 8198 ∷ 8199 ∷ 8200 ∷ 8201 ∷ 8202 ∷ 8232 ∷ 8233 ∷ 8239 ∷ 8287 ∷ 12288 ∷ [])

unfoldable pub lstrip : Text → Text
lstrip [] = []
lstrip (c ∷ s) = let rest = lstrip s in if is_space c then rest else c ∷ s

-- A character before what is left of the text behind it.
unfoldable pub keep : ℕ → Text → Text
keep c [] = if is_space c then [] else c ∷ []
keep c (d ∷ s) = c ∷ d ∷ s

unfoldable pub rstrip : Text → Text
rstrip [] = []
rstrip (c ∷ s) = keep c (rstrip s)

unfoldable pub strip : Text → Text
unfolding lstrip rstrip keep is_space
strip s = rstrip (lstrip s)

rstrip-keep : (c : ℕ) (s : Text) → rstrip s ≡ s → rstrip (keep c s) ≡ keep c s
unfolding rstrip keep
rstrip-keep c [] h = elim (Bool-cases (is_space c)) [ inl e ↦ rw e refl | inr e ↦ rw (e, e) refl ]
rstrip-keep c (d ∷ s) h = rw (h, keep) refl

rstrip-rstrip : (s : Text) → rstrip (rstrip s) ≡ rstrip s
unfolding rstrip
rstrip-rstrip [] = refl
rstrip-rstrip (c ∷ s) = rstrip-keep c (rstrip s) (rstrip-rstrip s)

-- A text that begins with no space keeps its first character.
lstrip-rstrip_head :
    (c : ℕ) (s : Text) → is_space c ≡ false → lstrip (rstrip (c ∷ s)) ≡ rstrip (c ∷ s)
unfolding lstrip rstrip keep
lstrip-rstrip_head c s e = go (rstrip s)
  where
    go : (t : Text) → lstrip (keep c t) ≡ keep c t
    go [] = rw (keep, e, lstrip, e) refl
    go (d ∷ t) = rw (keep, lstrip, e) refl

lstrip-rstrip-lstrip : (s : Text) → lstrip (rstrip (lstrip s)) ≡ rstrip (lstrip s)
unfolding lstrip rstrip
lstrip-rstrip-lstrip [] = refl
lstrip-rstrip-lstrip (c ∷ s) = elim (Bool-cases (is_space c)) [
  | inl e ↦ rw e (lstrip-rstrip-lstrip s)
  | inr e ↦ rw e (lstrip-rstrip_head c s e)
]

-- To strip twice is to strip once.
pub strip-strip : (s : Text) → strip (strip s) ≡ strip s
unfolding strip
strip-strip s = rw (lstrip-rstrip-lstrip s) (rstrip-rstrip (lstrip s))
