-- ===== src/Workflow/Checklist.antt =====
-- The fault that is reported from the failures of a checklist
-- (apps/inspection/application/services/report_inspection_fault_service.py).
use fmms.Prelude.{
  Bool, false, Option, none, some, List, [], ◌∷◌, ◌==◌, Uuid, DateTime, Text, strip, codes, Update,
  ◌>>=◌, ◌>>◌, pure, get, raise, when, map,
}
use fmms.Fault.Status as FaultStatus
use fmms.Fault.Status.{FaultSeverity}
use fmms.Fault.Entity.{Fault, FaultItem}
use fmms.Fault.Values.{fault_code, fault_description}
use fmms.Fault.Report.{Characters, take, max_severity, bracketed, text_or}
use fmms.Inspection.{
  Inspection, InspectionItem, FailureSeverity, critical, high, medium, low, status_is, drafted,
  failed_items,
}
use fmms.Workflow.Table.{select}
use fmms.Workflow.Database.{
  Database, Call, ServiceError, rejected, checklist_not_submitted, checklist_has_no_failures,
  checklist_fault_already_reported, load_vehicle, save_fault,
}
use fmms.Workflow.Faults.{
  Notifier, check_flow, valid, create_notification, link_number, measure_notified,
}
use fmms.Workflow.Inspections.{load_inspection}

-- `"INSP-FAIL"` and `"Multiple inspection failures"`
abbrev pub default_fault_code : Text
default_fault_code = codes "INSP-FAIL"

abbrev pub multi_failure_description : Text
multi_failure_description = codes "Multiple inspection failures"

-- `_item_fault_severity`
unfoldable pub fault_severity : Option FailureSeverity → FaultSeverity
fault_severity none = FaultStatus.medium
fault_severity (some critical) = FaultStatus.critical
fault_severity (some high) = FaultStatus.high
fault_severity (some medium) = FaultStatus.medium
fault_severity (some low) = FaultStatus.low

-- `item.notes or item.description`
abbrev pub note_or : Option Text → Text → Text
note_or none t = t
note_or (some n) t = text_or n t

-- `_build_fault_item`; `id_of` makes the id of the item of the fault from that of the checklist.
unfoldable pub failed_item : (Uuid → Uuid) → Uuid → DateTime → InspectionItem → FaultItem
unfolding fault_severity take
failed_item id_of fault now i = record {
  id = id_of i.id;
  fault_id = fault;
  component = i.description;
  description = take 500 (text_or (strip (note_or i.notes i.description)) i.description);
  severity = fault_severity i.severity;
  created_at = now;
  updated_at = now;
  inspection_item_id = some i.id;
}

unfoldable pub summary : InspectionItem → List InspectionItem → Text
unfolding take
summary i [] = take 500 (bracketed i.category i.description)
summary i (_ ∷ _) = multi_failure_description

unfoldable pub severity_of : InspectionItem → List InspectionItem → FaultSeverity
unfolding fault_severity max_severity
severity_of i l =
    max_severity (fault_severity i.severity)
      (map (λ (j : InspectionItem). fault_severity j.severity) l)

-- The fault of the failures.
unfoldable pub failed_fault :
    (Uuid → Uuid)
    → Uuid
    → Inspection
    → InspectionItem
    → List InspectionItem
    → Text
    → Text
    → Uuid
    → DateTime
    → Fault
unfolding failed_item severity_of
failed_fault id_of fresh inspection i l code description user now = record {
  id = fresh;
  vehicle_id = inspection.vehicle_id;
  code = code;
  description = description;
  severity = severity_of i l;
  status = FaultStatus.opened;
  reported_by_id = user;
  reported_at = now;
  created_at = now;
  updated_at = now;
  inspection_id = some inspection.id;
  sap_defect_code = none;
  sap_notification_number = none;
  assigned_to_id = none;
  distribution_decision_note = none;
  items = map (failed_item id_of fresh now) (i ∷ l);
}

-- `_build_fault_from_failed_items`, from the first failure and the others.
unfoldable pub build_fault :
    (Uuid → Uuid)
    → Characters
    → Uuid
    → Inspection
    → InspectionItem
    → List InspectionItem
    → Uuid
    → DateTime
    → Call Fault
unfolding summary failed_fault
build_fault id_of c fresh inspection i l user now = do
  code ← valid (fault_code c.upper default_fault_code)
  description ← valid (fault_description (summary i l))
  pure (failed_fault id_of fresh inspection i l code description user now)

abbrev pub is_of : Uuid → Option Uuid → Bool
is_of i none = false
is_of i (some j) = j == i

-- `list_by_inspection`
unfoldable pub faults_of_inspection : Uuid → Call (List Fault)
faults_of_inspection i = do
  db ← get
  pure (select (λ (f : Fault). is_of i f.inspection_id) db.faults)

-- `if existing_faults: raise ...`
unfoldable pub refuse_reported : List Fault → Update Database ServiceError
refuse_reported [] = pure tt
refuse_reported (f ∷ l) =
    raise (rejected (checklist_fault_already_reported (map (λ (g : Fault). g.id) (f ∷ l))))

-- What follows when the fault is saved: the notification, its number and the measurement.
unfoldable pub notify_saved : Notifier → Fault → DateTime → Call Fault
unfolding create_notification link_number measure_notified
notify_saved x f now = do
  v ← load_vehicle f.vehicle_id
  number ← create_notification x f v
  g ← link_number now f number
  measure_notified x g v number
  pure g

-- The service from the failed items on.
unfoldable pub report_failures :
    (Uuid → Uuid)
    → Notifier
    → Characters
    → Uuid
    → Inspection
    → Uuid
    → DateTime
    → List InspectionItem
    → Call Fault
unfolding faults_of_inspection refuse_reported check_flow build_fault notify_saved
report_failures id_of x c fresh i user now [] = raise (rejected checklist_has_no_failures)
report_failures id_of x c fresh i user now (first ∷ l) = do
  old ← faults_of_inspection i.id
  refuse_reported old
  check_flow i.vehicle_id
  f ← build_fault id_of c fresh i first l user now
  save_fault now f
  notify_saved x f now

-- `ReportInspectionFaultService.execute`; `fresh` is the id of the fault.
unfoldable pub report_inspection_fault :
    (Uuid → Uuid) → Notifier → Characters → Uuid → Uuid → Uuid → DateTime → Call Fault
unfolding load_inspection report_failures
report_inspection_fault id_of x c fresh i user now = do
  j ← load_inspection i
  when (status_is drafted j) (raise (rejected checklist_not_submitted))
  report_failures id_of x c fresh j user now (failed_items j)
