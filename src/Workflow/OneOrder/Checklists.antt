-- ===== src/Workflow/OneOrder/Checklists.antt =====
-- The checklists and the faults reported from them leave the repair orders alone.
use fmms.Prelude.{refl, Option, none, some, List, [], ◌∷◌, Uuid, DateTime, Text, Result, ok, err}
use fmms.Fault.Entity.{Fault}
use fmms.Fault.Report.{Characters}
use fmms.Vehicle.Entity.{Vehicle}
use fmms.Driver.{Driver}
use fmms.Inspection.{Inspection, InspectionItem, OdometerReading, OdometerError}
use fmms.Workflow.Rules.{OneOrder, Quiet, Keeps, Quiet-pure, Quiet-raise, Quiet-Keeps}
use fmms.Workflow.Quiet.{quiet_rules}
use fmms.Workflow.Faults.{Notifier}
use fmms.Workflow.Inspections.{
  InspectionData, load_inspection, save_inspection, operational_vehicle, authorized, linked_driver,
  resolve_driver_actor, read, create_inspection, add_inspection_item, submit_inspection,
}
use fmms.Workflow.Checklist.{
  build_fault, faults_of_inspection, refuse_reported, notify_saved, report_failures,
  report_inspection_fault,
}
use fmms.Workflow.OneOrder.Reports.{
  Quiet-check_flow, Quiet-valid, Quiet-notification, Quiet-measure_notified, Quiet-link_number,
}

Quiet-load_inspection : (i : Uuid) → Quiet (load_inspection i)
unfolding load_inspection
Quiet-load_inspection i = search quiet_rules

Quiet-save_inspection : (now : DateTime) (i : Inspection) → Quiet (save_inspection now i)
unfolding save_inspection
Quiet-save_inspection now i = record { at = λ db. refl }

Quiet-operational : (i : Uuid) → Quiet (operational_vehicle i)
unfolding operational_vehicle
Quiet-operational i = search quiet_rules

Quiet-authorized : (v : Vehicle) (d : Option Driver) → Quiet (authorized v d)
unfolding authorized
Quiet-authorized v none = Quiet-raise _
Quiet-authorized v (some d) = search quiet_rules

Quiet-driver_actor : (role p : Text) (v : Vehicle) → Quiet (resolve_driver_actor role p v)
unfolding resolve_driver_actor linked_driver
Quiet-driver_actor role p v = search (quiet_rules, Quiet-authorized)

Quiet-read : (r : Result OdometerError OdometerReading) → Quiet (read r)
Quiet-read (ok r) = Quiet-pure r
Quiet-read (err e) = Quiet-raise _

pub create_inspection-Keeps :
    (fresh : Uuid) (d : InspectionData) (now : DateTime)
    → Keeps OneOrder (create_inspection fresh d now)
unfolding create_inspection
create_inspection-Keeps fresh d now = Quiet-Keeps (
    search (quiet_rules, Quiet-operational, Quiet-driver_actor, Quiet-read, Quiet-save_inspection)
      depth 14)

pub add_item-Keeps :
    (i : Uuid) (item : InspectionItem) (now : DateTime)
    → Keeps OneOrder (add_inspection_item i item now)
unfolding add_inspection_item
add_item-Keeps i item now =
    Quiet-Keeps (search (quiet_rules, Quiet-load_inspection, Quiet-save_inspection) depth 14)

pub submit-Keeps : (i : Uuid) (now : DateTime) → Keeps OneOrder (submit_inspection i now)
unfolding submit_inspection
submit-Keeps i now =
    Quiet-Keeps (
      search (quiet_rules, Quiet-load_inspection, Quiet-operational, Quiet-save_inspection) depth
        14)

Quiet-refuse : (l : List Fault) → Quiet (refuse_reported l)
unfolding refuse_reported
Quiet-refuse [] = Quiet-pure tt
Quiet-refuse (f ∷ l) = Quiet-raise _

Quiet-build :
    (id_of : Uuid → Uuid) (c : Characters) (fresh : Uuid) (i : Inspection) (a : InspectionItem)
    (l : List InspectionItem) (user : Uuid) (now : DateTime)
    → Quiet (build_fault id_of c fresh i a l user now)
unfolding build_fault
Quiet-build id_of c fresh i a l user now = search (quiet_rules, Quiet-valid)

Quiet-notify_saved : (x : Notifier) (f : Fault) (now : DateTime) → Quiet (notify_saved x f now)
unfolding notify_saved
Quiet-notify_saved x f now =
    search (quiet_rules, Quiet-notification, Quiet-link_number, Quiet-measure_notified) depth 14

Quiet-report_failures :
    (id_of : Uuid → Uuid) (x : Notifier) (c : Characters) (fresh : Uuid) (i : Inspection)
    (user : Uuid) (now : DateTime) (l : List InspectionItem)
    → Quiet (report_failures id_of x c fresh i user now l)
unfolding report_failures faults_of_inspection
Quiet-report_failures id_of x c fresh i user now [] = Quiet-raise _
Quiet-report_failures id_of x c fresh i user now (a ∷ l) =
    search (quiet_rules, Quiet-refuse, Quiet-check_flow, Quiet-build, Quiet-notify_saved) depth 14
      fits 9000

pub report_checklist-Keeps :
    (id_of : Uuid → Uuid) (x : Notifier) (c : Characters) (fresh i user : Uuid) (now : DateTime)
    → Keeps OneOrder (report_inspection_fault id_of x c fresh i user now)
unfolding report_inspection_fault
report_checklist-Keeps id_of x c fresh i user now =
    Quiet-Keeps (search (quiet_rules, Quiet-load_inspection, Quiet-report_failures) depth 14)
