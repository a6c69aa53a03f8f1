-- ===== src/Workflow/Reported.antt =====
-- What the report of a fault does: on a vehicle with an open flow, and on one without.
use fmms.Prelude.{
  ◌≡◌, refl, ℕ, Bool, true, false, ◌>>=◌, pure, Option, none, some, List, [], ◌∷◌, Uuid, DateTime,
  Text, Result, ok, err, All,
}
use fmms.Fault.Status.{opened}
use fmms.Fault.Entity
use fmms.Fault.Entity.{Fault}
use fmms.Fault.Values.{fault_code, fault_description}
use fmms.Fault.Report.{ReportData, Characters, resolve_fault_payload}
use fmms.Vehicle.Entity.{Vehicle}
use fmms.OpenFlow.{open_flow, Closed, Finished, open_flow_raised, assert_vehicle_has_no_open_flow}
use fmms.Workflow.Table.{Row, row_of, put}
use fmms.Workflow.Stored.{stored_fault}
use fmms.Workflow.Database.{
  Database, SapError, idempotency, exhausted, integration, fault_id, vehicle_id, flow_error,
  load_vehicle, save_fault,
}
use fmms.Workflow.Faults.{
  Notifier, check_flow, document, create_notification, measured, measure_notified, sync_fault,
  link_number, new_fault, build_fault, report_fault,
}

-- The report of a fault of a vehicle in the table that has a fault that is not CLOSED or a repair
-- order that is not finished, deleted rows aside, raises the error of the guard for that vehicle and
-- writes nothing.
pub report_refused :
    (x : Notifier) (c : Characters) (fresh : Uuid) (d : ReportData) (user : Uuid) (now : DateTime)
    (db : Database) {r : Row Vehicle}
    → row_of vehicle_id d.vehicle_id db.vehicles ≡ some r
    → ¬ (All (Closed d.vehicle_id) db.faults × All (Finished d.vehicle_id) db.orders)
    → (b : Bool) × (ids : Option (List Uuid)) × (report_fault x c fresh d user now db
        ≡ (err (flow_error (open_flow d.vehicle_id b ids)), db))
unfolding report_fault load_vehicle check_flow
report_refused x c fresh d user now db h g =
    let (b, ids, e) = open_flow_raised d.vehicle_id db.faults db.orders g in
    (b, ids, simp (h, e) refl)

-- The answer of the manager of SAP lets the report go on: an integration error is caught.
abbrev pub goes_on : Result SapError Text → Bool
goes_on (ok _) = true
goes_on (err integration) = true
goes_on (err _) = false

-- The fault with the number of its notification, if there is one.
abbrev pub numbered : DateTime → Fault → Result SapError Text → Fault
numbered now f (ok (c ∷ t)) = record f { sap_notification_number = some (c ∷ t); updated_at = now }
numbered now f _ = f

-- The rows when the fault is saved with its number.
abbrev pub renumbered :
    DateTime → Fault → Result SapError Text → List (Row Fault) → List (Row Fault)
renumbered now f (ok (c ∷ t)) rows =
    put fault_id (stored_fault now) (numbered now f (ok (c ∷ t))) rows
renumbered now f _ rows = rows

-- The rows of the faults after the report.
abbrev pub saved : DateTime → Fault → Result SapError Text → List (Row Fault) → List (Row Fault)
saved now f s rows = renumbered now f s (put fault_id (stored_fault now) f rows)

ignored :
    (r : Result SapError Text) (db : Database)
    → goes_on r ≡ true
    → (document r >>= λ _. pure tt) db ≡ (ok tt, db)
unfolding document
ignored (ok t) db h = refl
ignored (err integration) db h = refl
ignored (err idempotency) db h = cc
ignored (err exhausted) db h = cc

measured_on :
    (x : Notifier) (f : Fault) (v : Vehicle) (n : Text) (o : Option ℕ) (db : Database)
    → ((km : ℕ) → goes_on (x.measure f v n km) ≡ true)
    → measured x f v n o db ≡ (ok tt, db)
unfolding measured
measured_on x f v n none db h = refl
measured_on x f v n (some km) db h = ignored (x.measure f v n km) db (h km)

module _ (x : Notifier) (f : Fault) (v : Vehicle) (now : DateTime) (db : Database) where
  -- What follows when the fault is saved.
  notified :
      (s : Result SapError Text)
      → x.notify f v ≡ s
      → goes_on s ≡ true
      → ((n : Text) (km : ℕ) → goes_on (x.measure f v n km) ≡ true)
      → (sync_fault x f v >>= link_number now f) db
        ≡ (ok (numbered now f s), record db { faults = renumbered now f s db.faults })
  unfolding sync_fault create_notification document measure_notified link_number save_fault
      Entity.link_sap_notification
  notified (ok []) h g m = simp (h) refl
  notified (ok (c ∷ t)) h g m =
      simp (h, measured_on x f v (c ∷ t) (x.get_latest f.vehicle_id) db (m (c ∷ t))) refl
  notified (err integration) h g m = simp (h) refl
  notified (err idempotency) h g m = cc
  notified (err exhausted) h g m = cc

-- The fault that is saved first: OPEN, with what the report says.
abbrev pub reported : Characters → Uuid → ReportData → Text → Text → Uuid → DateTime → Fault
reported c fresh d code description user now =
    let p = resolve_fault_payload c d fresh now in
    record {
      id = fresh;
      vehicle_id = d.vehicle_id;
      code = code;
      description = description;
      severity = p.severity;
      status = opened;
      reported_by_id = user;
      reported_at = now;
      created_at = now;
      updated_at = now;
      inspection_id = d.inspection_id;
      sap_defect_code = none;
      sap_notification_number = none;
      assigned_to_id = none;
      distribution_decision_note = none;
      items = p.items;
    }

-- The report of a fault of a vehicle with no open flow, whose code and description are accepted,
-- succeeds and leaves the fault OPEN and saved, whether SAP takes the notification and the
-- measurement or fails: with the number of the notification it is saved a second time. Neither call
-- is assumed to be refused as in progress or as exhausted.
pub report_fault_saves :
    (x : Notifier) (c : Characters) (fresh : Uuid) (d : ReportData) (user : Uuid) (now : DateTime)
    (db : Database) {r : Row Vehicle} {code description : Text} {s : Result SapError Text}
    → row_of vehicle_id d.vehicle_id db.vehicles ≡ some r
    → assert_vehicle_has_no_open_flow d.vehicle_id db.faults db.orders ≡ ok tt
    → fault_code c.upper (resolve_fault_payload c d fresh now).code ≡ ok code
    → fault_description (resolve_fault_payload c d fresh now).description ≡ ok description
    → x.notify (reported c fresh d code description user now) r.entity ≡ s
    → goes_on s ≡ true
    → ((n : Text) (km : ℕ)
        → goes_on (x.measure (reported c fresh d code description user now) r.entity n km) ≡ true)
    → report_fault x c fresh d user now db ≡ (
      ok (numbered now (reported c fresh d code description user now) s),
      record db { faults = saved now (reported c fresh d code description user now) s db.faults },
    )
unfolding report_fault load_vehicle check_flow build_fault new_fault save_fault
report_fault_saves x c fresh d user now db h g e k n go m =
    simp (h, g, e, k) (notified x _ _ now _ _ n go m)
