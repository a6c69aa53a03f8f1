-- ===== src/Workflow/OneOrder/Reports.antt =====
-- The reports, the checklists and the purchase of parts leave the repair orders alone.
use fmms.Prelude.{ℕ, Option, none, some, [], ◌∷◌, Uuid, DateTime, Text, Result, ok, err}
use fmms.Fault.Entity.{Fault}
use fmms.Fault.Values as FaultValues
use fmms.Fault.Report.{ReportData, Characters}
use fmms.Vehicle.Entity.{Vehicle}
use fmms.OpenFlow.{FlowError}
use fmms.Workflow.Database.{SapError, idempotency, exhausted, integration}
use fmms.Workflow.Rules.{OneOrder, Quiet, Keeps, Quiet-pure, Quiet-raise, Quiet-Keeps, Quiet-bind}
use fmms.Workflow.Quiet.{quiet_rules}
use fmms.Workflow.Faults.{
  Notifier, guarded, check_flow, valid, document, create_notification, measured, measure_notified,
  sync_fault, link_number, build_fault, report_fault, assign_fault,
}

Quiet-guarded : (r : Result FlowError (Unit {0})) → Quiet (guarded r)
Quiet-guarded (ok _) = Quiet-pure tt
Quiet-guarded (err e) = Quiet-raise _

pub Quiet-check_flow : (v : Uuid) → Quiet (check_flow v)
unfolding check_flow
Quiet-check_flow v = search (quiet_rules, Quiet-guarded)

pub Quiet-valid : (r : Result FaultValues.ValueError Text) → Quiet (valid r)
Quiet-valid (ok t) = Quiet-pure t
Quiet-valid (err e) = Quiet-raise _

Quiet-document : (r : Result SapError Text) → Quiet (document r)
unfolding document
Quiet-document (ok t) = Quiet-pure _
Quiet-document (err integration) = Quiet-pure _
Quiet-document (err idempotency) = Quiet-raise _
Quiet-document (err exhausted) = Quiet-raise _

pub Quiet-notification :
    (x : Notifier) (f : Fault) (v : Vehicle) → Quiet (create_notification x f v)
unfolding create_notification
Quiet-notification x f v = Quiet-document _

Quiet-measured :
    (x : Notifier) (f : Fault) (v : Vehicle) (n : Text) (o : Option ℕ) → Quiet (measured x f v n o)
unfolding measured
Quiet-measured x f v n none = Quiet-pure tt
Quiet-measured x f v n (some km) = Quiet-bind (Quiet-document _) λ _. Quiet-pure tt

pub Quiet-measure_notified :
    (x : Notifier) (f : Fault) (v : Vehicle) (n : Option Text) → Quiet (measure_notified x f v n)
unfolding measure_notified
Quiet-measure_notified x f v none = Quiet-pure tt
Quiet-measure_notified x f v (some []) = Quiet-pure tt
Quiet-measure_notified x f v (some (c ∷ t)) = Quiet-measured x f v (c ∷ t) _

pub Quiet-link_number : (now : DateTime) (f : Fault) (n : Option Text) → Quiet (link_number now f n)
unfolding link_number
Quiet-link_number now f none = Quiet-pure f
Quiet-link_number now f (some []) = Quiet-pure f
Quiet-link_number now f (some (c ∷ t)) = search quiet_rules

pub report-Keeps :
    (x : Notifier) (c : Characters) (fresh : Uuid) (d : ReportData) (user : Uuid) (now : DateTime)
    → Keeps OneOrder (report_fault x c fresh d user now)
unfolding report_fault build_fault sync_fault
report-Keeps x c fresh d user now = Quiet-Keeps (
    search
      (
        quiet_rules, Quiet-check_flow, Quiet-valid, Quiet-notification, Quiet-measure_notified,
        Quiet-link_number,
      )
      depth 14 fits 9000)

pub assign_fault-Keeps : (i t : Uuid) (now : DateTime) → Keeps OneOrder (assign_fault i t now)
unfolding assign_fault
assign_fault-Keeps i t now = Quiet-Keeps (search quiet_rules)
