-- ===== src/Prelude/Calls.antt =====
-- A method call: state and exceptions. The state comes back after a raise too, since a field that
-- was written before the raise stays written in the object.
use mathlib.Core.Bool.{Bool, true, false}

pub data Result (E A : Type 0) : Type 0 where
  ok : A → Result E A
  err : E → Result E A

abbrev pub Method : Type 0 → Type 0 → Type 0 → Type 0
Method S E A = S → Result E A × S

-- A method that returns `None`.
abbrev pub Update : Type 0 → Type 0 → Type 0
Update S E = Method S E (Unit {0})

-- How a call goes on after its first part.
abbrev pub resume : {S E A B : Type 0} → (A → Method S E B) → Result E A × S → Result E B × S
resume f (ok a, s) = f a s
resume f (err e, s) = (err e, s)

infixl 5 ◌>>=◌ ◌>>◌
abbrev pub ◌>>=◌ : {S E A B : Type 0} → Method S E A → (A → Method S E B) → Method S E B
◌>>=◌ m f s = resume f (m s)

abbrev pub ◌>>◌ : {S E A B : Type 0} → Method S E A → Method S E B → Method S E B
m >> k = m >>= λ _. k

abbrev pub pure : {S E A : Type 0} → A → Method S E A
pure a s = (ok a, s)

abbrev pub raise : {S E A : Type 0} → E → Method S E A
raise e s = (err e, s)

abbrev pub get : {S E : Type 0} → Method S E S
get s = (ok s, s)

abbrev pub modify : {S E : Type 0} → (S → S) → Update S E
modify f s = (ok tt, f s)

-- `if b: m`
abbrev pub when : {S E : Type 0} → Bool → Update S E → Update S E
when true m = m
when false m = pure tt

-- What a call leaves behind: `Q` with its value where it returns, `P` where it raises.
abbrev pub Post : {S E A : Type 0} → (S → Type 0) → (A → S → Type 0) → Result E A × S → Type 0
Post P Q (ok a, s) = Q a s
Post P Q (err _, s) = P s

-- The rule for `>>=`.
pub resume-Post :
    {S E A B : Type 0} (P : S → Type 0) (Q : A → S → Type 0) (k : A → Method S E B)
    → ((a : A) (s : S) → Q a s → P (k a s).1)
    → (x : Result E A × S) → Post P Q x
    → P (resume k x).1
resume-Post P Q k q (ok a, s) h = q a s h
resume-Post P Q k q (err _, s) h = h

-- The same where the second part has a postcondition of its own.
pub Post-bind :
    {S E A B : Type 0} (P : S → Type 0) (Q : A → S → Type 0) (R : B → S → Type 0)
    (k : A → Method S E B)
    → ((a : A) (s : S) → Q a s → Post P R (k a s))
    → (x : Result E A × S) → Post P Q x
    → Post P R (resume k x)
Post-bind P Q R k q (ok a, s) h = q a s h
Post-bind P Q R k q (err _, s) h = h

pub Post-map :
    {S E A : Type 0} (P : S → Type 0) (Q R : A → S → Type 0) (x : Result E A × S)
    → ((a : A) (s : S) → Q a s → R a s)
    → Post P Q x
    → Post P R x
Post-map P Q R (ok a, s) f h = f a s h
Post-map P Q R (err _, s) f h = h

pub Post-both :
    {S E A : Type 0} (P P₂ : S → Type 0) (Q Q₂ : A → S → Type 0) (x : Result E A × S)
    → ((s : S) → P s → P₂ s)
    → ((a : A) (s : S) → Q a s → Q₂ a s)
    → Post P Q x
    → Post P₂ Q₂ x
Post-both P P₂ Q Q₂ (ok a, s) f g h = g a s h
Post-both P P₂ Q Q₂ (err _, s) f g h = f s h

-- What two calls keep, they keep one after the other.
pub >>-keeps :
    {S E : Type 0} {P : S → Type 0} (m k : Update S E)
    → ((s : S) → P s → P (m s).1)
    → ((s : S) → P s → P (k s).1)
    → (s : S) → P s
    → P ((m >> k) s).1
>>-keeps {S} {E} {P} m k p q s h =
    resume-Post P (λ _. P) (λ _. k) (λ _. q) (m s) (Post_of (m s) (p s h))
  where
    Post_of : (x : Result E (Unit {0}) × S) → P x.1 → Post P (λ _. P) x
    Post_of (ok _, _) h' = h'
    Post_of (err _, _) h' = h'

pub when-keeps :
    {S E : Type 0} {P : S → Type 0} (b : Bool) (m : Update S E)
    → ((s : S) → P s → P (m s).1)
    → (s : S) → P s
    → P (when b m s).1
when-keeps true m p s h = p s h
when-keeps false m p s h = h
