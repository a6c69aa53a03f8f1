-- ===== src/Workflow/Failures.antt =====
-- The fault of a checklist can always be built from its failures.
use fmms.Prelude.{
  ℕ, suc, ◌≡◌, ◌≤◌, refl, true, false, List, [], ◌∷◌, ◌++◌, Uuid, DateTime, Text, All, length,
  text_truthy, strip, lstrip, rstrip, keep, is_space, codes, map, ok, arith, ℕ_discrete, Option,
  none, some, member,
}
use fmms.Fault.Values.{all_code_chars, limited, fault_description}
use fmms.Fault.Report.{Characters, severity_rank, take}
use fmms.Fault.Payload.{
  length-take, fault_code-chars, max_severity-best, max_severity-All, max_severity-member,
}
use fmms.Fault.Status as FaultStatus
use fmms.Fault.Status.{FaultSeverity, FaultSeverity-discrete, opened}
use fmms.Fault.Entity.{Fault}
use fmms.Inspection
use fmms.Inspection.{Inspection, InspectionItem, FailureSeverity}
use fmms.Workflow.Database.{Database}
use fmms.Workflow.Checklist.{
  default_fault_code, fault_severity, summary, severity_of, failed_fault, failed_item, build_fault,
}

length-keep : (c : ℕ) (t : Text) → length (keep c t) ≤ suc (length t)
unfolding keep
length-keep c [] = ground arith
length-keep c (d ∷ t) = omega arith

length-rstrip : (t : Text) → length (rstrip t) ≤ length t
unfolding rstrip
length-rstrip [] = omega arith
length-rstrip (c ∷ t) = omega (arith, length-keep c (rstrip t), length-rstrip t)

keep-truthy : (c : ℕ) (t : Text) → is_space c ≡ false → text_truthy (keep c t) ≡ true
unfolding keep
keep-truthy c [] h = rw h refl
keep-truthy c (d ∷ t) h = refl

-- A text within the limit that begins with a character is accepted, without the white space at its
-- end.
limited_head :
    (limit c : ℕ) (t : Text)
    → is_space c ≡ false
    → length (c ∷ t) ≤ limit
    → limited limit (c ∷ t) ≡ ok (strip (c ∷ t))
unfolding limited strip lstrip rstrip
limited_head limit c t h k =
    rw h
      (rw (keep-truthy c (rstrip t) h) (ground (arith, length-keep c (rstrip t), length-rstrip t)))

bracket-not_space : is_space 91 ≡ false
unfolding is_space ℕ_discrete
bracket-not_space = refl

summary_accepted :
    (i : InspectionItem) (l : List InspectionItem)
    → fault_description (summary i l) ≡ ok (strip (summary i l))
unfolding summary take limited strip lstrip rstrip keep is_space ℕ_discrete
summary_accepted i [] =
    limited_head 500 91 (take 499 (i.category ++ 93 ∷ 32 ∷ i.description)) bracket-not_space
      (omega (arith, length-take 499 (i.category ++ 93 ∷ 32 ∷ i.description)))
summary_accepted i (j ∷ l) = refl

default_chars : all_code_chars default_fault_code ≡ true
unfolding all_code_chars
default_chars = refl

-- The severity of the same name, and MEDIUM where a failure has none.
abbrev pub named_alike : Option FailureSeverity → FaultSeverity
named_alike none = FaultStatus.medium
named_alike (some Inspection.low) = FaultStatus.low
named_alike (some Inspection.medium) = FaultStatus.medium
named_alike (some Inspection.high) = FaultStatus.high
named_alike (some Inspection.critical) = FaultStatus.critical

fault_severity-alike : (o : Option FailureSeverity) → fault_severity o ≡ named_alike o
unfolding fault_severity
fault_severity-alike o = ground arith

-- The severity of a fault that is meant by that of a failure.
abbrev pub meant : InspectionItem → FaultSeverity
meant i = named_alike i.severity

severity_of-meant :
    (l : List InspectionItem)
    → map (λ (j : InspectionItem). fault_severity j.severity) l ≡ map meant l
severity_of-meant [] = refl
severity_of-meant (j ∷ l) = cc (fault_severity-alike j.severity, severity_of-meant l)

severity-All :
    (l : List InspectionItem) (n : ℕ)
    → All (λ s. severity_rank s ≤ n) (map meant l)
    → All (λ (j : InspectionItem). severity_rank (meant j) ≤ n) l
severity-All [] n h = tt
severity-All (j ∷ l) n (a, h) = (a, severity-All l n h)

-- The severity is that of one of the failures and no less than that of any.
abbrev pub IsWorst : FaultSeverity → List InspectionItem → Type 0
IsWorst s l =
    (member FaultSeverity-discrete s (map meant l) ≡ true)
    × All (λ (j : InspectionItem). severity_rank (meant j) ≤ severity_rank s) l

severity_of-IsWorst :
    (i : InspectionItem) (l : List InspectionItem) → IsWorst (severity_of i l) (i ∷ l)
unfolding severity_of
severity_of-IsWorst i l =
    rw (fault_severity-alike i.severity, severity_of-meant l)
      (
        max_severity-member (meant i) (map meant l),
        (
          max_severity-best (meant i) (map meant l),
          severity-All l _ (max_severity-All (meant i) (map meant l)),
        ),
      )

-- The fault that is built.
abbrev pub expected_fault :
    (Uuid → Uuid)
    → Uuid
    → Inspection
    → InspectionItem
    → List InspectionItem
    → FaultSeverity
    → Uuid
    → DateTime
    → Fault
expected_fault id_of fresh inspection i l severity user now = record {
  id = fresh;
  vehicle_id = inspection.vehicle_id;
  code = codes "INSP-FAIL";
  description = strip (summary i l);
  severity = severity;
  status = opened;
  reported_by_id = user;
  reported_at = now;
  created_at = now;
  updated_at = now;
  inspection_id = some inspection.id;
  sap_defect_code = none;
  sap_notification_number = none;
  assigned_to_id = none;
  distribution_decision_note = none;
  items = map (failed_item id_of fresh now) (i ∷ l);
}

-- The fault of a checklist with failures is always built, OPEN, for the vehicle of the checklist and
-- with a fault item for each failure: its code and its description are accepted whatever the failed
-- items are called, and its severity is that of one of them and no less than that of any.
-- `str.upper` is assumed to leave a text of capital letters, digits and hyphens of ASCII as it is.
pub checklist_fault_built :
    (id_of : Uuid → Uuid) (c : Characters) (fresh : Uuid) (inspection : Inspection)
    (i : InspectionItem) (l : List InspectionItem) (user : Uuid) (now : DateTime) (db : Database)
    → ((t : Text) → all_code_chars t ≡ true → c.upper t ≡ t)
    → (s : FaultSeverity) × (build_fault id_of c fresh inspection i l user now db
        ≡ (ok (expected_fault id_of fresh inspection i l s user now), db))
      × IsWorst s (i ∷ l)
unfolding build_fault failed_fault
checklist_fault_built id_of c fresh inspection i l user now db up = (
  severity_of i l,
  simp
      (
        fault_code-chars c default_fault_code up (omega arith) (omega arith) default_chars,
        summary_accepted i l,
      )
      refl,
  severity_of-IsWorst i l,
)
