-- ===== src/Workflow/Faults.antt =====
-- The report of a fault and its assignment
-- (apps/fault/application/services/report_fault_service.py and assign_fault_service.py).
use fmms.Prelude.{
  ℕ, Option, none, some, [], ◌∷◌, Uuid, DateTime, Text, Result, ok, err, Update, ◌>>=◌, ◌>>◌, pure,
  get, raise,
}
use fmms.Fault.Status
use fmms.Fault.Entity
use fmms.Fault.Entity.{Fault}
use fmms.Fault.Values.{ValueError, fault_code, fault_description}
use fmms.Fault.Report.{ReportData, Characters, Payload, resolve_fault_payload}
use fmms.Vehicle.Entity.{Vehicle}
use fmms.OpenFlow.{FlowError, assert_vehicle_has_no_open_flow}
use fmms.Workflow.Database.{
  Database, Call, ServiceError, SapError, idempotency, exhausted, integration, fault_error,
  fault_value_error, flow_error, sap_error, on, load_fault, load_vehicle, save_fault,
}
use fmms.Workflow.Steps.{touch_fault}

-- What the services take from SAP: how the manager answers for the notification of a fault, the
-- last reading of the odometer, and how it answers for the measurement document.
pub record Notifier : Type 0 where
  pub notify : Fault → Vehicle → Result SapError Text
  pub get_latest : Uuid → Option ℕ
  pub measure : Fault → Vehicle → Text → ℕ → Result SapError Text

-- The guard on the tables of the database.
abbrev pub guarded : Result FlowError (Unit {0}) → Update Database ServiceError
guarded (ok _) = pure tt
guarded (err e) = raise (flow_error e)

unfoldable pub check_flow : Uuid → Update Database ServiceError
check_flow v = do db ← get; guarded (assert_vehicle_has_no_open_flow v db.faults db.orders)

-- A value object of a fault.
abbrev pub valid : Result ValueError Text → Call Text
valid (ok t) = pure t
valid (err e) = raise (fault_value_error e)

-- What the `except` of both calls to SAP lets through.
unfoldable pub document : Result SapError Text → Call (Option Text)
document (ok t) = pure (some t)
document (err integration) = pure none
document (err idempotency) = raise (sap_error idempotency)
document (err exhausted) = raise (sap_error exhausted)

-- `_create_sap_pm_notification`
unfoldable pub create_notification : Notifier → Fault → Vehicle → Call (Option Text)
unfolding document
create_notification x f v = document (x.notify f v)

-- `_update_sap_vehicle_measurement`, with the reading.
unfoldable pub measured :
    Notifier → Fault → Vehicle → Text → Option ℕ → Update Database ServiceError
unfolding document
measured x f v number none = pure tt
measured x f v number (some km) = document (x.measure f v number km) >>= λ _. pure tt

abbrev pub update_measurement : Notifier → Fault → Vehicle → Text → Update Database ServiceError
update_measurement x f v number = measured x f v number (x.get_latest f.vehicle_id)

-- The measurement of a fault that has a number, in `_sync_fault_to_sap`.
unfoldable pub measure_notified :
    Notifier → Fault → Vehicle → Option Text → Update Database ServiceError
unfolding measured
measure_notified x f v none = pure tt
measure_notified x f v (some []) = pure tt
measure_notified x f v (some (c ∷ t)) = update_measurement x f v (c ∷ t)

-- `_sync_fault_to_sap`
unfoldable pub sync_fault : Notifier → Fault → Vehicle → Call (Option Text)
unfolding create_notification measure_notified
sync_fault x f v = do number ← create_notification x f v; measure_notified x f v number; pure number

-- `if sap_notification_number: ...`
unfoldable pub link_number : DateTime → Fault → Option Text → Call Fault
link_number now f none = pure f
link_number now f (some []) = pure f
link_number now f (some (c ∷ t)) = do
  g ← on fault_error (Entity.link_sap_notification (c ∷ t) >> touch_fault now) f
  save_fault now g
  pure g

-- The fault that a report creates.
unfoldable pub new_fault : Uuid → ReportData → Payload → Text → Text → Uuid → DateTime → Fault
new_fault fresh d p code description user now = record {
  id = fresh;
  vehicle_id = d.vehicle_id;
  code = code;
  description = description;
  severity = p.severity;
  status = Status.opened;
  reported_by_id = user;
  reported_at = now;
  created_at = now;
  updated_at = now;
  inspection_id = d.inspection_id;
  sap_defect_code = none;
  sap_notification_number = none;
  assigned_to_id = none;
  distribution_decision_note = none;
  items = p.items;
}

-- `Fault(...)` with its value objects.
unfoldable pub build_fault : Characters → Uuid → ReportData → Payload → Uuid → DateTime → Call Fault
unfolding new_fault
build_fault c fresh d p user now = do
  code ← valid (fault_code c.upper p.code)
  description ← valid (fault_description p.description)
  pure (new_fault fresh d p code description user now)

-- `ReportFaultService.execute`; `fresh` is the id of the fault.
unfoldable pub report_fault :
    Notifier → Characters → Uuid → ReportData → Uuid → DateTime → Call Fault
unfolding check_flow build_fault sync_fault link_number
report_fault x c fresh d user now = do
  v ← load_vehicle d.vehicle_id
  check_flow d.vehicle_id
  f ← build_fault c fresh d (resolve_fault_payload c d fresh now) user now
  save_fault now f
  number ← sync_fault x f v
  link_number now f number

-- `AssignFaultService.execute`
unfoldable pub assign_fault : Uuid → Uuid → DateTime → Call Fault
assign_fault i technician now = do
  f ← load_fault i
  g ← on fault_error (Entity.assign technician >> touch_fault now) f
  save_fault now g
  pure g
