-- ===== src/Repair/Event.antt =====
-- The timeline of a repair order: `RepairOrderEvent` and its types (apps/repair/domain/entities.py).
-- The id of an event and its description, a display text, are left out.
use fmms.Prelude.{Uuid, DateTime, Option}

pub data RepairOrderEventType : Type 0 where
  fault_created distribution_approved distribution_approved_usable : RepairOrderEventType
  transport_approved transport_rejected workshop_assigned : RepairOrderEventType
  external_referral_requested external_referral_approved external_referral_rejected :
      RepairOrderEventType
  external_workshop_assigned external_workshop_assignment_cancelled external_vehicle_delivered :
      RepairOrderEventType
  external_repair_in_progress external_vehicle_picked_up external_admin_review_saved :
      RepairOrderEventType
  external_repair_closed technician_accepted technician_rejected : RepairOrderEventType
  repair_rejected repairable_confirmed no_repair_needed : RepairOrderEventType
  material_requested material_approved material_rejected : RepairOrderEventType
  material_waiting_stock stock_issued purchase_required : RepairOrderEventType
  part_received parts_received repair_started : RepairOrderEventType
  repair_completed waiting_driver_confirmation waiting_transport_final_approval :
      RepairOrderEventType
  driver_accepted driver_rejected transport_handover_approved : RepairOrderEventType
  transport_handover_rejected invoice_uploaded invoice_approved : RepairOrderEventType
  external_invoice_uploaded external_invoice_approved : RepairOrderEventType

pub record RepairOrderEvent : Type 0 where
  pub repair_order_id : Uuid
  pub event_type : RepairOrderEventType
  pub created_at : DateTime
  pub created_by_id : Option Uuid
