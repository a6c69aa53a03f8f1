-- ===== src/Inspection.antt =====
-- The aggregate `Inspection` (apps/inspection/domain/entities.py) and its value objects.
use fmms.Prelude.{
  ℕ, Bool, true, false, not, Option, none, some, List, [], ◌∷◌, ◌++◌, Uuid, DateTime, Text, ℤ, pos,
  negsuc, is, member, Result, ok, err, Update, ◌>>=◌, ◌>>◌, get, modify, raise, when, if◌then◌else◌,
}
pub mod Frozen
pub mod Examples

-- `drafted` is DRAFT.
pub data InspectionStatus : Type 0 where
  drafted submitted approved rejected : InspectionStatus

unfoldable pub InspectionStatus-discrete : Discrete InspectionStatus
InspectionStatus-discrete = hlevel

pub data InspectionType : Type 0 where
  pre_trip post_trip periodic unscheduled : InspectionType

-- `_ALLOWED_TRANSITIONS`
unfoldable pub allowed_transitions : InspectionStatus → List InspectionStatus
allowed_transitions drafted = submitted ∷ []
allowed_transitions submitted = approved ∷ rejected ∷ []
allowed_transitions rejected = drafted ∷ []
allowed_transitions approved = []

pub data ChecklistResult : Type 0 where
  passed failed not_applicable : ChecklistResult

unfoldable pub ChecklistResult-discrete : Discrete ChecklistResult
ChecklistResult-discrete = hlevel

pub data FailureSeverity : Type 0 where
  critical high medium low : FailureSeverity

pub data OdometerUnit : Type 0 where
  km miles : OdometerUnit

pub record OdometerReading : Type 0 where
  pub value : ℕ
  pub unit : OdometerUnit

-- The `ValueError` of a negative reading.
pub data OdometerError : Type 0 where
  negative : ℤ → OdometerError

-- `OdometerReading(value=..., unit=...)`
unfoldable pub odometer_reading : ℤ → OdometerUnit → Result OdometerError OdometerReading
odometer_reading (pos n) u = ok record { value = n; unit = u }
odometer_reading (negsuc n) u = err (negative (negsuc n))

pub record InspectionItem : Type 0 where
  pub id : Uuid
  pub category : Text
  pub description : Text
  pub result : ChecklistResult
  pub notes : Option Text
  pub severity : Option FailureSeverity

pub record Inspection : Type 0 where
  pub id : Uuid
  pub vehicle_id : Uuid
  pub inspection_type : InspectionType
  pub odometer_reading : OdometerReading
  pub status : InspectionStatus
  pub inspected_at : DateTime
  pub created_at : DateTime
  pub updated_at : DateTime
  pub driver_id : Option Uuid
  pub reviewed_by_id : Option Uuid
  pub review_notes : Option Text
  pub items : List InspectionItem

-- `InspectionInvalidStateTransitionError`, `InspectionAlreadySubmittedError` and
-- `InspectionItemRequiredError`
pub data InspectionError : Type 0 where
  invalid_transition : InspectionStatus → InspectionStatus → InspectionError
  already_submitted : Uuid → InspectionError
  item_required : InspectionError

abbrev pub status_is : InspectionStatus → Inspection → Bool
status_is s i = is InspectionStatus-discrete i.status s

unfoldable pub transition_to : InspectionStatus → Update Inspection InspectionError
unfolding allowed_transitions InspectionStatus-discrete
transition_to target = do
  i ← get
  when (not (member InspectionStatus-discrete target (allowed_transitions i.status)))
      (raise (invalid_transition i.status target))
  modify (λ j. record j { status = target })

unfoldable pub add_item : InspectionItem → Update Inspection InspectionError
unfolding InspectionStatus-discrete
add_item item = do
  i ← get
  when (not (status_is drafted i)) (raise (already_submitted i.id))
  modify (λ j. record j { items = j.items ++ (item ∷ []) })

abbrev pub no_items : List InspectionItem → Bool
no_items [] = true
no_items (_ ∷ _) = false

unfoldable pub submit : Update Inspection InspectionError
unfolding transition_to
submit = do i ← get; when (no_items i.items) (raise item_required); transition_to submitted

unfoldable pub approve : Uuid → Option Text → Update Inspection InspectionError
unfolding transition_to
approve user notes = do
  transition_to approved
  modify (λ i. record i { reviewed_by_id = some user; review_notes = notes })

unfoldable pub reject : Uuid → Option Text → Update Inspection InspectionError
unfolding transition_to
reject user notes = do
  transition_to rejected
  modify (λ i. record i { reviewed_by_id = some user; review_notes = notes })

unfoldable pub reopen : Update Inspection InspectionError
unfolding transition_to
reopen = do
  transition_to drafted
  modify (λ i. record i { reviewed_by_id = none; review_notes = none })

-- `failed_items`
unfoldable pub failed_of : List InspectionItem → List InspectionItem
unfolding ChecklistResult-discrete
failed_of [] = []
failed_of (i ∷ l) =
    let rest = failed_of l in if is ChecklistResult-discrete i.result failed then i ∷ rest else rest

abbrev pub failed_items : Inspection → List InspectionItem
failed_items i = failed_of i.items
