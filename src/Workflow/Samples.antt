-- ===== src/Workflow/Samples.antt =====
-- A small database, and the data of requests on it.
use fmms.Prelude.{
  true, false, none, some, List, [], ◌∷◌, Uuid, Text, Bool, ◌&&◌, leb, Decimal, pos, ok, err,
}
use fmms.Fault.Values.{is_code_char}
use fmms.Repair.Status
use fmms.Repair.Status.{external}
use fmms.Repair.Order.{RepairOrder, new_order}
use fmms.Repair.Referral
use fmms.Repair.Referral.{ReferralRequest}
use fmms.Repair.External
use fmms.Repair.External.{ExternalWorkshopAssignment, other}
use fmms.Vehicle.Status as VehicleStatus
use fmms.Vehicle.Entity.{Vehicle}
use fmms.Handover.{VehicleHandover, waiting_driver_confirmation}
use fmms.Material
use fmms.Material.{MaterialRequest}
use fmms.Workflow.Database.{Database, SapError}
use fmms.Workflow.Review.{ReviewData}
use fmms.Workflow.External.{AssignmentData}
use fmms.Workflow.Delivery.{DeliveryData, PickupData}
use fmms.Workflow.Requests.{Outside, Request}

-- Order 6 of vehicle 2 for fault 3, returned by an external workshop.
abbrev pub returned : RepairOrder
returned = record (new_order 6 2 3 4 100) {
  status = Status.waiting_transport_final_approval;
  workshop_type = some external;
}

abbrev pub van : VehicleStatus.VehicleStatus → Vehicle
van s = record {
  id = 2;
  vehicle_number = 86 ∷ 50 ∷ [];
  license_plate = 49 ∷ 50 ∷ [];
  status = s;
  created_at = 1;
  updated_at = 1;
  commissioning_date = none;
  driver1_customer_number = none;
  driver2_customer_number = none;
}

abbrev pub parts_request : Material.MaterialRequestStatus → MaterialRequest
parts_request s = record {
  id = 40;
  repair_order_id = 6;
  status = s;
  created_by_id = 4;
  created_at = 100;
  updated_at = 100;
  items = [];
}

abbrev database : VehicleStatus.VehicleStatus → Material.MaterialRequestStatus → Database
database v m = record {
  orders = record { entity = returned; is_deleted = false } ∷ [];
  faults = [];
  vehicles = record { entity = van v; is_deleted = false } ∷ [];
  handovers = [];
  referrals = [];
  materials = record { entity = parts_request m; is_deleted = false } ∷ [];
  costs = [];
  invoices = [];
  assignments = [];
  deliveries = [];
  pickups = [];
  reviews = [];
  inspections = [];
  drivers = [];
  requisitions = [];
  purchase_orders = [];
  issues = [];
  history = [];
  events = [];
}

abbrev pub waiting : Database
waiting = database VehicleStatus.waiting_driver_confirmation Material.waiting_stock

-- The digits of ASCII.
unfoldable pub all_digits : Text → Bool
all_digits [] = true
all_digits (c ∷ t) = leb 48 c && leb c 57 && all_digits t

abbrev pub is_number : Text → Bool
is_number [] = false
is_number (c ∷ t) = all_digits (c ∷ t)

abbrev pub five : Decimal
five = record { negative = false; digits = 5; exponent = pos 0 }

abbrev pub outside : Outside
outside = record {
  sap = λ o v. ok (55 ∷ []);
  replace = λ v f. ok tt;
  reader = record { material = λ p. []; quantity = λ p. pos 1; unit = λ p. [] };
  no_repair_note = 78 ∷ [];
  change_note = 67 ∷ [];
  notifier = record {
    notify = λ f v. ok (54 ∷ []);
    get_latest = λ v. some 9000;
    measure = λ f v t km. err SapError.integration;
  };
  characters = record { upper = λ t. t; is_alnum = is_code_char };
  alphabet = record { digits = λ t. is_number t; upper = λ t. t };
  stock = record { get_available_quantity = λ t. five; material_exists = λ t. true };
  purchasing = λ r. ok (53 ∷ []);
  fresh_of = λ i. i;
}

-- The return is rejected, and the new order is approved.
abbrev pub requests : List Request
requests = Request.reject_return 7 6 9 200 ∷ Request.approve 7 none 9 210 ∷ []

-- Order 6 while the vehicle is repaired in the internal workshop.
abbrev pub repaired : RepairOrder
repaired = record (new_order 6 2 3 4 100) {
  status = Status.in_progress;
  workshop_type = some Status.internal;
}

abbrev pub at_work : Database
at_work = record (database VehicleStatus.under_repair Material.received) {
  orders = record { entity = repaired; is_deleted = false } ∷ [];
  materials = [];
}

abbrev pub handed : RepairOrder
handed = record repaired {
  status = Status.waiting_driver_confirmation;
  completed_at = some 190;
  updated_at = 200;
}

abbrev pub gone : Database
gone = database VehicleStatus.decommissioned Material.received

abbrev pub new_workshop : AssignmentData
new_workshop = record {
  workshop_id = none;
  workshop_name = 87 ∷ [];
  workshop_address = 65 ∷ [];
  assignment_date = 150;
  repair_reason = 82 ∷ [];
  description = 68 ∷ [];
}

abbrev pub brought : DeliveryData
brought = record {
  delivery_datetime = 160;
  workshop_name = 87 ∷ [];
  workshop_address = 65 ∷ [];
  workshop_phone = 48 ∷ [];
  vehicle_odometer = 9000;
  notes = [];
}

abbrev pub taken : PickupData
taken = record { pickup_datetime = 170; vehicle_odometer = 9010; notes = [] }

abbrev pub reviewed : ReviewData
reviewed = record {
  invoice_attachment = none;
  repair_services = [];
  replaced_parts = [];
  repair_cost = none;
  additional_notes = [];
}

abbrev pub no_ids : List Uuid
no_ids = []

abbrev pub given : VehicleHandover
given = record {
  id = 50;
  repair_order_id = 6;
  vehicle_id = 2;
  status = waiting_driver_confirmation;
  created_at = 180;
  updated_at = 180;
  driver_id = none;
  comment = some [];
  confirmed_at = none;
}

abbrev pub referral : ReferralRequest
referral = record {
  id = 60;
  repair_order_id = 6;
  vehicle_id = 2;
  fault_id = 3;
  status = Referral.requested;
  requested_by_id = 4;
  requested_at = 120;
  created_at = 120;
  updated_at = 120;
  workshop_id = some [];
  reason = [];
  approved_by_id = none;
  approved_at = none;
  rejected_by_id = none;
  rejected_at = none;
  rejection_reason = none;
}

abbrev pub assigned : ExternalWorkshopAssignment
assigned = record {
  id = 70;
  repair_order_id = 6;
  vehicle_id = 2;
  fault_id = 3;
  workshop_name = 87 ∷ [];
  workshop_address = 65 ∷ [];
  assignment_date = 150;
  repair_reason = 82 ∷ [];
  description = [];
  status = External.active;
  assigned_by_id = 4;
  created_at = 150;
  updated_at = 150;
  workshop_id = some [];
  cancellation_reason = none;
  cancellation_note = none;
  cancelled_by_id = none;
  cancelled_at = none;
}
