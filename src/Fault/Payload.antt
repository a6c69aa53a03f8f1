-- ===== src/Fault/Payload.antt =====
-- What the payload of a reported fault is like: its code, its severity and its items.
use fmms.Prelude.{
  ℕ, zero, suc, ◌≤◌, ◌≡◌, ◌≢◌, ◌↔◌, ap, ◌∙◌, refl, true, false, List, [], ◌∷◌, Uuid, DateTime, Text,
  is, member, length, All, strip, is_space, lstrip, rstrip, keep, map, ok, arith, ℕ_discrete,
}
use fmms.Fault.Status.{FaultSeverity, FaultSeverity-discrete}
use fmms.Fault.Entity.{FaultItem}
use fmms.Fault.Values.{is_code_char, all_code_chars, matches_code, fault_code}
use fmms.Fault.Report.{
  ItemData, ReportData, Characters, Payload, severity_rank, worse, max_severity, cleaned, take,
  safe_parent_code, text_or, build_fault_item, resolve_items, resolve_fault_payload, manual_code,
  multi_fault_code,
}

pub length-take : (n : ℕ) (t : Text) → length (take n t) ≤ n
unfolding take
length-take zero t = omega arith
length-take (suc n) [] = omega arith
length-take (suc n) (c ∷ t) = omega (arith, length-take n t)

code_char-not_space : (c : ℕ) → is_code_char c ≡ true → is_space c ≡ false
unfolding is_space ℕ_discrete
code_char-not_space c h = ground arith

lstrip_code : (t : Text) → all_code_chars t ≡ true → lstrip t ≡ t
unfolding lstrip all_code_chars
lstrip_code [] h = refl
lstrip_code (c ∷ t) h = ground (arith, code_char-not_space c)

keep_code : (c : ℕ) (t : Text) → is_space c ≡ false → keep c t ≡ c ∷ t
unfolding keep
keep_code c [] h = rw h refl
keep_code c (d ∷ t) h = refl

rstrip_code : (t : Text) → all_code_chars t ≡ true → rstrip t ≡ t
unfolding rstrip all_code_chars
rstrip_code [] h = refl
rstrip_code (c ∷ t) h = ground (arith, rstrip_code t, keep_code c t, code_char-not_space c)

strip_code : (t : Text) → all_code_chars t ≡ true → strip t ≡ t
unfolding strip
strip_code t h = ap rstrip (lstrip_code t h) ∙ rstrip_code t h

safe_parent_code-length :
    (x : Characters) (raw fallback : Text)
    → 3 ≤ length fallback
    → length fallback ≤ 20
    → (3 ≤ length (safe_parent_code x raw fallback))
      × (length (safe_parent_code x raw fallback) ≤ 20)
unfolding safe_parent_code
safe_parent_code-length x raw fallback h k =
    ground (arith, length-take 20 (cleaned x (x.upper (strip raw))))

-- A code within the length that the pattern asks for is accepted exactly if its characters are.
pub fault_code-chars :
    (x : Characters) (t : Text)
    → ((s : Text) → all_code_chars s ≡ true → x.upper s ≡ s)
    → 3 ≤ length t
    → length t ≤ 20
    → all_code_chars t ≡ true
    → fault_code x.upper t ≡ ok t
unfolding fault_code matches_code
fault_code-chars x t up h k c = rw (strip_code t c) (rw (up t c) (ground arith))

pub accepted-chars :
    (x : Characters) (t : Text) {s : Text}
    → fault_code x.upper t ≡ ok s
    → (all_code_chars s ≡ true) × (3 ≤ length s) × (length s ≤ 20)
unfolding fault_code matches_code
accepted-chars x t h = ground arith

payload_code-length :
    (x : Characters) (d : ReportData) (fault : Uuid) (now : DateTime) (l : List ItemData)
    → l ≢ []
    → (3 ≤ length (resolve_items x d fault now l).code)
      × (length (resolve_items x d fault now l).code ≤ 20)
unfolding resolve_items
payload_code-length x d fault now [] h = ground arith
payload_code-length x d fault now (i ∷ []) h =
    safe_parent_code-length x _ manual_code (omega arith) (omega arith)
payload_code-length x d fault now (i ∷ j ∷ l) h =
    safe_parent_code-length x _ multi_fault_code (omega arith) (omega arith)

-- A report with items always has a code of the length that `FaultCode` asks for, and `FaultCode`
-- accepts it, unchanged, exactly if its characters are capital letters, digits and hyphens of ASCII.
-- `str.upper` is assumed to leave a text of such characters as it is.
pub report_code_accepted :
    (x : Characters) (d : ReportData) (fault : Uuid) (now : DateTime)
    → ((t : Text) → all_code_chars t ≡ true → x.upper t ≡ t)
    → d.items ≢ []
    → let code = (resolve_fault_payload x d fault now).code in
      (3 ≤ length code)
      × (length code ≤ 20)
      × ((fault_code x.upper code ≡ ok code) ↔ (all_code_chars code ≡ true))
report_code_accepted x d fault now up h =
    let (low, high) = payload_code-length x d fault now d.items h in
    (
      low,
      high,
      (
        λ e. (accepted-chars x (resolve_fault_payload x d fault now).code e).0,
        λ c. fault_code-chars x (resolve_fault_payload x d fault now).code up low high c,
      ),
    )

-- The worse of two severities is one of them, and no less than the other.
worse-bounds :
    (a b : FaultSeverity)
    → (severity_rank a ≤ severity_rank (worse a b)) × (severity_rank b ≤ severity_rank (worse a b))
unfolding worse
worse-bounds a b = ground arith

pub max_severity-best :
    (best : FaultSeverity) (l : List FaultSeverity)
    → severity_rank best ≤ severity_rank (max_severity best l)
unfolding max_severity
max_severity-best best [] = omega arith
max_severity-best best (s ∷ l) =
    omega (arith, max_severity-best (worse best s) l, worse-bounds best s)

pub max_severity-All :
    (best : FaultSeverity) (l : List FaultSeverity)
    → All (λ s. severity_rank s ≤ severity_rank (max_severity best l)) l
unfolding max_severity
max_severity-All best [] = tt
max_severity-All best (s ∷ l) = (
  omega (arith, max_severity-best (worse best s) l, worse-bounds best s),
  max_severity-All (worse best s) l,
)

pub max_severity-member :
    (best : FaultSeverity) (l : List FaultSeverity)
    → member FaultSeverity-discrete (max_severity best l) (best ∷ l) ≡ true
unfolding max_severity FaultSeverity-discrete
max_severity-member best [] = ground arith
max_severity-member best (s ∷ l) =
    ground (arith, worse best s, max_severity-member (worse best s) l)

-- The limits of the columns of an item.
abbrev pub Fits : FaultItem → Type 0
Fits i = (length i.component ≤ 100) × (length i.description ≤ 500)

build_fault_item-Fits :
    (fault : Uuid) (now : DateTime) (i : ItemData) → Fits (build_fault_item fault now i)
unfolding build_fault_item
build_fault_item-Fits fault now i = (
  ground (
    arith,
    length-take 100 (strip (text_or (text_or i.component i.description) i.code)),
    length-take 100 i.code,
  ),
  length-take 500 _,
)

items-Fits :
    (fault : Uuid) (now : DateTime) (l : List ItemData)
    → All Fits (map (build_fault_item fault now) l)
items-Fits fault now [] = tt
items-Fits fault now (i ∷ l) = (build_fault_item-Fits fault now i, items-Fits fault now l)

severities-All :
    (n : ℕ) (l : List ItemData)
    → All (λ s. severity_rank s ≤ n) (map (λ (i : ItemData). i.severity) l)
    → All (λ (i : ItemData). severity_rank i.severity ≤ n) l
severities-All n [] h = tt
severities-All n (i ∷ l) (a, h) = (a, severities-All n l h)

items-length :
    (fault : Uuid) (now : DateTime) (l : List ItemData)
    → length (map (build_fault_item fault now) l) ≡ length l
items-length fault now [] = refl
items-length fault now (i ∷ l) = ap suc (items-length fault now l)

is_self : (s : FaultSeverity) → is FaultSeverity-discrete s s ≡ true
unfolding FaultSeverity-discrete
is_self s = ground arith

-- What a payload is like for the items of its report.
abbrev pub Bounds : Payload → List ItemData → Type 0
Bounds p l =
    All (λ (i : ItemData). severity_rank i.severity ≤ severity_rank p.severity) l
    × (member FaultSeverity-discrete p.severity (map (λ (i : ItemData). i.severity) l) ≡ true)
    × (length p.items ≡ length l)
    × All Fits p.items

payload-Bounds :
    (x : Characters) (d : ReportData) (fault : Uuid) (now : DateTime) (l : List ItemData)
    → l ≢ []
    → Bounds (resolve_items x d fault now l) l
unfolding resolve_items
payload-Bounds x d fault now [] h = ground arith
payload-Bounds x d fault now (i ∷ []) h =
    ((omega arith, tt), rw (is_self i.severity) refl, refl, (build_fault_item-Fits fault now i, tt))
payload-Bounds x d fault now (i ∷ j ∷ l) h =
    let severities = map (λ (k : ItemData). k.severity) (j ∷ l) in
    (
      (
        max_severity-best i.severity severities,
        severities-All _ (j ∷ l) (max_severity-All i.severity severities),
      ),
      max_severity-member i.severity severities,
      items-length fault now (i ∷ j ∷ l),
      items-Fits fault now (i ∷ j ∷ l),
    )

-- A report with items gives its fault the severity of its worst item, which is that of one of them
-- and no less than that of any, and one fault item for each, whose component has 100 characters at
-- most and whose description 500.
pub report_bounds :
    (x : Characters) (d : ReportData) (fault : Uuid) (now : DateTime)
    → d.items ≢ []
    → let p = resolve_fault_payload x d fault now in
      All (λ (i : ItemData). severity_rank i.severity ≤ severity_rank p.severity) d.items
      × (member FaultSeverity-discrete p.severity (map (λ (i : ItemData). i.severity) d.items)
          ≡ true)
      × (length p.items ≡ length d.items)
      × All Fits p.items
report_bounds x d fault now h = payload-Bounds x d fault now d.items h
