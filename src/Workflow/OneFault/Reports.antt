-- ===== src/Workflow/OneFault/Reports.antt =====
-- The reports of faults keep the rule of one open fault for each vehicle.
use fmms.Prelude.{
  ◌≡◌, refl, List, [], ◌∷◌, Uuid, DateTime, Text, Result, ok, err, ◌>>=◌, pure, Post,
}
use fmms.Fault.Entity.{Fault}
use fmms.Fault.Values.{ValueError, fault_code, fault_description}
use fmms.Fault.Report.{ReportData, Characters, Payload}
use fmms.Vehicle.Entity.{Vehicle}
use fmms.Inspection.{Inspection, InspectionItem, failed_items}
use fmms.OpenFlow.{FaultRow}
use fmms.Workflow.Database.{Database, Call, ServiceError}
use fmms.Workflow.Frame.{Still-pure, Still-raise, Still-when, Still-then, Still-Holds, Holds-bind}
use fmms.Workflow.Faults.{
  Notifier, valid, sync_fault, new_fault, build_fault as build_reported, report_fault,
}
use fmms.Workflow.Inspections.{load_inspection}
use fmms.Workflow.Checklist.{
  default_fault_code, summary, failed_fault, build_fault, faults_of_inspection, refuse_reported,
  notify_saved, report_failures, report_inspection_fault,
}
use fmms.Workflow.OneFault.{
  OneFault, Quiet, Keeps, Held, Keeps-save, Keeps-check, still_rules, Quiet-load_vehicle,
  Quiet-measure_notified, Quiet-notification, link-Keeps,
}

-- A fault that is built from a code and a description.
Keeps-made :
    {A : Type 0} {P : List FaultRow → Type 0} {k : Fault → Call A} (v : Uuid)
    (make : Text → Text → Fault) (r s : Result ValueError Text)
    → ((code description : Text) → (make code description).vehicle_id ≡ v)
    → ((f : Fault) → f.vehicle_id ≡ v → Keeps P (k f))
    → Keeps P ((valid r >>= λ code. valid s >>= λ description. pure (make code description)) >>= k)
Keeps-made v make (ok a) (ok b) e q = q (make a b) (e a b)
Keeps-made v make (ok a) (err x) e q = record { at = λ db one h. one }
Keeps-made v make (err x) s e q = record { at = λ db one h. one }

Keeps-reported :
    {A : Type 0} {P : List FaultRow → Type 0} {k : Fault → Call A} (c : Characters) (fresh : Uuid)
    (d : ReportData) (p : Payload) (user : Uuid) (now : DateTime)
    → ((f : Fault) → f.vehicle_id ≡ d.vehicle_id → Keeps P (k f))
    → Keeps P (build_reported c fresh d p user now >>= k)
unfolding build_reported new_fault
Keeps-reported c fresh d p user now q =
    Keeps-made d.vehicle_id (λ code description. new_fault fresh d p code description user now)
      (fault_code c.upper p.code) (fault_description p.description) (λ code description. refl) q

Keeps-failed :
    {A : Type 0} {P : List FaultRow → Type 0} {k : Fault → Call A} (id_of : Uuid → Uuid)
    (c : Characters) (fresh : Uuid) (i : Inspection) (a : InspectionItem) (l : List InspectionItem)
    (user : Uuid) (now : DateTime)
    → ((f : Fault) → f.vehicle_id ≡ i.vehicle_id → Keeps P (k f))
    → Keeps P (build_fault id_of c fresh i a l user now >>= k)
unfolding build_fault failed_fault
Keeps-failed id_of c fresh i a l user now q =
    Keeps-made i.vehicle_id
      (λ code description. failed_fault id_of fresh i a l code description user now)
      (fault_code c.upper default_fault_code) (fault_description (summary a l))
      (λ code description. refl) q

Quiet-sync : (x : Notifier) (f : Fault) (v : Vehicle) → Quiet (sync_fault x f v)
unfolding sync_fault
Quiet-sync x f v = search (still_rules, Quiet-notification, Quiet-measure_notified)

report-Keeps :
    (x : Notifier) (c : Characters) (fresh : Uuid) (d : ReportData) (user : Uuid) (now : DateTime)
    → Keeps OneFault (report_fault x c fresh d user now)
unfolding report_fault
report-Keeps x c fresh d user now = Still-then (Quiet-load_vehicle d.vehicle_id) λ v.
    Keeps-check d.vehicle_id λ _. Keeps-reported c fresh d _ user now λ f e.
      Keeps-save d.vehicle_id now f e λ _. Still-then (Quiet-sync x f v) λ n. link-Keeps now f n

notify-Keeps : (x : Notifier) (f : Fault) (now : DateTime) → Keeps (Held f) (notify_saved x f now)
unfolding notify_saved
notify-Keeps x f now = Still-then (Quiet-load_vehicle f.vehicle_id) λ v.
    Still-then (Quiet-notification x f v) λ n.
      Holds-bind (link-Keeps now f n)
        λ g. Still-Holds (search (still_rules, Quiet-measure_notified))

Quiet-refuse : (l : List Fault) → Quiet (refuse_reported l)
unfolding refuse_reported
Quiet-refuse [] = Still-pure tt
Quiet-refuse (f ∷ l) = Still-raise _

Quiet-faults_of : (i : Uuid) → Quiet (faults_of_inspection i)
unfolding faults_of_inspection
Quiet-faults_of i = search still_rules

Quiet-load_inspection : (i : Uuid) → Quiet (load_inspection i)
unfolding load_inspection
Quiet-load_inspection i = search still_rules

failures-Keeps :
    (id_of : Uuid → Uuid) (x : Notifier) (c : Characters) (fresh : Uuid) (i : Inspection)
    (user : Uuid) (now : DateTime) (l : List InspectionItem)
    → Keeps OneFault (report_failures id_of x c fresh i user now l)
unfolding report_failures
failures-Keeps id_of x c fresh i user now [] = Still-Holds (Still-raise _)
failures-Keeps id_of x c fresh i user now (a ∷ l) = Still-then (Quiet-faults_of i.id) λ old.
    Still-then (Quiet-refuse old) λ _. Keeps-check i.vehicle_id λ _.
      Keeps-failed id_of c fresh i a l user now
        λ f e. Keeps-save i.vehicle_id now f e λ _. notify-Keeps x f now

checklist-Keeps :
    (id_of : Uuid → Uuid) (x : Notifier) (c : Characters) (fresh i user : Uuid) (now : DateTime)
    → Keeps OneFault (report_inspection_fault id_of x c fresh i user now)
unfolding report_inspection_fault
checklist-Keeps id_of x c fresh i user now = Still-then (Quiet-load_inspection i) λ j.
    Still-then (Still-when _ _ (Still-raise _))
      λ _. failures-Keeps id_of x c fresh j user now (failed_items j)

left-OneFault :
    {A : Type 0} (x : Result ServiceError A × Database)
    → Post (λ (d : Database). OneFault d.faults) (λ _ (d : Database). OneFault d.faults) x
    → OneFault x.1.faults
left-OneFault (ok _, d) h = h
left-OneFault (err _, d) h = h

-- Where each vehicle has one open fault at most, deleted rows aside, it has one at most after the
-- report of a fault and after the report from a checklist, whether they return or raise, whatever
-- SAP answers and whichever id the fault gets.
pub reports-OneFault :
    (id_of : Uuid → Uuid) (x : Notifier) (c : Characters) (fresh : Uuid) (d : ReportData)
    (i user : Uuid) (now : DateTime) (db : Database)
    → OneFault db.faults
    → OneFault (report_fault x c fresh d user now db).1.faults
      × OneFault (report_inspection_fault id_of x c fresh i user now db).1.faults
reports-OneFault id_of x c fresh d i user now db one = (
  left-OneFault (report_fault x c fresh d user now db)
      ((report-Keeps x c fresh d user now).at db one one),
  left-OneFault (report_inspection_fault id_of x c fresh i user now db)
      ((checklist-Keeps id_of x c fresh i user now).at db one one),
)
