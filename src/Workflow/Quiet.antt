-- ===== src/Workflow/Quiet.antt =====
-- The steps that leave the table of the orders as it is.
use fmms.Prelude.{refl, Option, none, some, Uuid, DateTime, Result, ok, err, Update, get}
use fmms.Repair.Order.{RepairOrder}
use fmms.Repair.Values.{ValueError}
use fmms.Repair.Event.{RepairOrderEventType}
use fmms.Repair.External.{ExternalWorkshopAssignment}
use fmms.Repair.Referral.{ReferralRequest}
use fmms.Fault.Entity.{Fault}
use fmms.Vehicle.Status.{VehicleStatus}
use fmms.Vehicle.Entity.{Vehicle, VehicleError}
use fmms.Handover.{VehicleHandover}
use fmms.Workflow.Database.{
  ServiceError, value_error, required, held, on, built, load_fault, load_vehicle, load_handover,
  save_fault, save_vehicle, save_handover, save_referral, save_assignment, record_event,
  handover_of_order,
}
use fmms.Workflow.Steps.{
  change_vehicle, move_vehicle, close_fault, close_found, close_fault_for_completed_repair,
  record_component_history,
}
use fmms.Workflow.Rules.{Quiet, Quiet-pure, Quiet-raise, Quiet-if, Quiet-when, Quiet-bind}

pub Quiet-required : {A : Type 0} (e : ServiceError) (x : Option A) → Quiet (required e x)
Quiet-required e none = Quiet-raise e
Quiet-required e (some a) = Quiet-pure a

Quiet-held :
    {S E : Type 0} (wrap : E → ServiceError) (x : Result E (Unit {0}) × S) → Quiet (held wrap x)
Quiet-held wrap (ok _, s) = Quiet-pure s
Quiet-held wrap (err e, s) = Quiet-raise (wrap e)

pub Quiet-on :
    {S E : Type 0} (wrap : E → ServiceError) (m : Update S E) (s : S) → Quiet (on wrap m s)
Quiet-on wrap m s = Quiet-held wrap (m s)

pub Quiet-built : {A : Type 0} (x : Result ValueError A) → Quiet (built x)
Quiet-built (ok a) = Quiet-pure a
Quiet-built (err e) = Quiet-raise (value_error e)

pub Quiet-get : Quiet get
Quiet-get = record { at = λ db. refl }

pub Quiet-load_fault : (i : Uuid) → Quiet (load_fault i)
unfolding load_fault
Quiet-load_fault i = Quiet-bind Quiet-get λ db. Quiet-required _ _

pub Quiet-load_vehicle : (i : Uuid) → Quiet (load_vehicle i)
unfolding load_vehicle
Quiet-load_vehicle i = Quiet-bind Quiet-get λ db. Quiet-required _ _

pub Quiet-load_handover : (i : Uuid) → Quiet (load_handover i)
unfolding load_handover
Quiet-load_handover i = Quiet-bind Quiet-get λ db. Quiet-required _ _

pub Quiet-save_fault : (now : DateTime) (f : Fault) → Quiet (save_fault now f)
unfolding save_fault
Quiet-save_fault now f = record { at = λ db. refl }

pub Quiet-save_vehicle : (now : DateTime) (v : Vehicle) → Quiet (save_vehicle now v)
unfolding save_vehicle
Quiet-save_vehicle now v = record { at = λ db. refl }

pub Quiet-save_handover : (now : DateTime) (h : VehicleHandover) → Quiet (save_handover now h)
unfolding save_handover
Quiet-save_handover now h = record { at = λ db. refl }

pub Quiet-save_referral : (now : DateTime) (r : ReferralRequest) → Quiet (save_referral now r)
unfolding save_referral
Quiet-save_referral now r = record { at = λ db. refl }

pub Quiet-save_assignment :
    (now : DateTime) (a : ExternalWorkshopAssignment) → Quiet (save_assignment now a)
unfolding save_assignment
Quiet-save_assignment now a = record { at = λ db. refl }

pub Quiet-record_event :
    (i : Uuid) (kind : RepairOrderEventType) (user : Option Uuid) (now : DateTime)
    → Quiet (record_event i kind user now)
unfolding record_event
Quiet-record_event i kind user now = record { at = λ db. refl }

pub Quiet-handover_of_order : (i : Uuid) → Quiet (handover_of_order i)
unfolding handover_of_order
Quiet-handover_of_order i = Quiet-bind Quiet-get λ db. Quiet-pure _

pub Quiet-record_history :
    (o : RepairOrder) (user : Uuid) (now : DateTime) → Quiet (record_component_history o user now)
unfolding record_component_history
Quiet-record_history o user now = record { at = λ db. refl }

-- The steps of every service, and how they are put together.
pub ruleset quiet_rules = (
  Quiet-pure, Quiet-raise, Quiet-if, Quiet-when, Quiet-bind, Quiet-get, Quiet-required, Quiet-on,
  Quiet-built, Quiet-load_fault, Quiet-load_vehicle, Quiet-load_handover, Quiet-save_fault,
  Quiet-save_vehicle, Quiet-save_handover, Quiet-save_referral, Quiet-save_assignment,
  Quiet-record_event, Quiet-handover_of_order, Quiet-record_history,
)

pub Quiet-change_vehicle :
    (m : Update Vehicle VehicleError) (now : DateTime) (v : Vehicle)
    → Quiet (change_vehicle m now v)
unfolding change_vehicle
Quiet-change_vehicle m now v = search quiet_rules

pub Quiet-move_vehicle :
    (s : VehicleStatus) (m : Update Vehicle VehicleError) (now : DateTime) (i : Uuid)
    → Quiet (move_vehicle s m now i)
unfolding move_vehicle
Quiet-move_vehicle s m now i = search (quiet_rules, Quiet-change_vehicle)

Quiet-close_fault : (now : DateTime) (f : Fault) → Quiet (close_fault now f)
unfolding close_fault
Quiet-close_fault now f = search quiet_rules

Quiet-close_found : (now : DateTime) (f : Option Fault) → Quiet (close_found now f)
unfolding close_found
Quiet-close_found now none = search quiet_rules
Quiet-close_found now (some f) = search (quiet_rules, Quiet-close_fault)

pub Quiet-close_fault_for :
    (now : DateTime) (i : Uuid) → Quiet (close_fault_for_completed_repair now i)
unfolding close_fault_for_completed_repair
Quiet-close_fault_for now i = search (quiet_rules, Quiet-close_found)

-- With the steps that services share.
pub ruleset shared_rules = (quiet_rules, Quiet-move_vehicle, Quiet-close_fault_for)
