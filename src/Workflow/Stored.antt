-- ===== src/Workflow/Stored.antt =====
-- What `save` of each repository leaves in the row of an entity: the composition of the columns that
-- it writes with `_to_domain`, which reads them back (apps/repair/infrastructure/repositories.py and
-- its neighbours, apps/fault, apps/vehicle and apps/handover). `now` is the time of the write. A
-- decimal is kept as it is: the hours, quantities and amounts are taken to have no more places and
-- digits than their columns, which round or refuse others.
use fmms.Prelude.{
  Bool, false, Option, none, some, List, [], ◌∷◌, ◌==◌, DateTime, blank_to_none, if◌then◌else◌, map,
}
use fmms.Repair.Order.{RepairOrder, RepairActivity}
use fmms.Repair.Referral.{ReferralRequest}
use fmms.Repair.Costs.{InternalRepairCost, ExternalRepairInvoice}
use fmms.Repair.External.{
  ExternalWorkshopAssignment, ExternalWorkshopDelivery, ExternalWorkshopPickup,
  ExternalRepairReview,
}
use fmms.Fault.Entity.{Fault, FaultItem}
use fmms.Vehicle.Entity.{Vehicle}
use fmms.Handover.{VehicleHandover}
use fmms.Material.{MaterialRequest}
use fmms.Workflow.Table.{Row}

-- The flag of a row that is written: an update leaves it alone.
abbrev pub kept_flag : {A : Type 0} → Option (Row A) → Bool
kept_flag none = false
kept_flag (some r) = r.is_deleted

-- The value of a column that an update leaves alone.
abbrev pub kept : {A : Type 0} → (A → DateTime) → Option (Row A) → DateTime → DateTime
kept f none d = d
kept f (some r) d = f r.entity

-- The activities are deleted and inserted anew.
unfoldable pub stored_activity : RepairActivity → RepairActivity
stored_activity a = record a { notes = blank_to_none a.notes }

unfoldable pub stored_order : DateTime → Option (Row RepairOrder) → RepairOrder → Row RepairOrder
unfolding stored_activity
stored_order now old o = record {
  entity = record o {
    created_at = kept (λ (p : RepairOrder). p.created_at) old o.created_at;
    updated_at = now;
    activities = map stored_activity o.activities;
    sap_order_number = blank_to_none o.sap_order_number;
    workshop_id = blank_to_none o.workshop_id;
    transport_rejection_reason = blank_to_none o.transport_rejection_reason;
    transport_approval_note = blank_to_none o.transport_approval_note;
    workshop_decision_note = blank_to_none o.workshop_decision_note;
  };
  is_deleted = kept_flag old;
}

-- `update_or_create` of an item of a fault. An id that is new to the fault is taken to be new to the
-- table, as those of `uuid.uuid4()` are: the item of another fault would be updated otherwise.
unfoldable pub put_item : DateTime → FaultItem → List FaultItem → List FaultItem
put_item now i [] = record i { updated_at = now } ∷ []
put_item now i (j ∷ l) =
    if j.id == i.id
    then record i { created_at = j.created_at; updated_at = now } ∷ l
    else j ∷ put_item now i l

unfoldable pub put_items : DateTime → List FaultItem → List FaultItem → List FaultItem
unfolding put_item
put_items now [] l = l
put_items now (i ∷ new) l = put_items now new (put_item now i l)

abbrev pub items_of : Option (Row Fault) → List FaultItem
items_of none = []
items_of (some r) = r.entity.items

unfoldable pub stored_fault : DateTime → Option (Row Fault) → Fault → Row Fault
stored_fault now old f = record {
  entity = record f {
    created_at = kept (λ (g : Fault). g.created_at) old f.created_at;
    updated_at = now;
    sap_defect_code = blank_to_none f.sap_defect_code;
    sap_notification_number = blank_to_none f.sap_notification_number;
    distribution_decision_note = blank_to_none f.distribution_decision_note;
    items = put_items now f.items (items_of old);
  };
  is_deleted = kept_flag old;
}

-- The save of a vehicle takes a deletion back.
unfoldable pub stored_vehicle : DateTime → Option (Row Vehicle) → Vehicle → Row Vehicle
stored_vehicle now old v = record {
  entity = record v {
    created_at = kept (λ (w : Vehicle). w.created_at) old v.created_at;
    updated_at = now;
    commissioning_date = blank_to_none v.commissioning_date;
    driver1_customer_number = blank_to_none v.driver1_customer_number;
    driver2_customer_number = blank_to_none v.driver2_customer_number;
  };
  is_deleted = false;
}

unfoldable pub stored_handover :
    DateTime → Option (Row VehicleHandover) → VehicleHandover → Row VehicleHandover
stored_handover now old h = record {
  entity = record h {
    created_at = kept (λ (k : VehicleHandover). k.created_at) old h.created_at;
    updated_at = now;
    comment = blank_to_none h.comment;
  };
  is_deleted = kept_flag old;
}

unfoldable pub stored_referral :
    DateTime → Option (Row ReferralRequest) → ReferralRequest → Row ReferralRequest
stored_referral now old r = record {
  entity = record r {
    created_at = kept (λ (s : ReferralRequest). s.created_at) old r.created_at;
    updated_at = now;
    workshop_id = blank_to_none r.workshop_id;
    rejection_reason = blank_to_none r.rejection_reason;
  };
  is_deleted = kept_flag old;
}

unfoldable pub stored_cost :
    DateTime → Option (Row InternalRepairCost) → InternalRepairCost → Row InternalRepairCost
stored_cost now old c = record {
  entity = record c {
    created_at = kept (λ (d : InternalRepairCost). d.created_at) old c.created_at;
    updated_at = now;
  };
  is_deleted = kept_flag old;
}

unfoldable pub stored_invoice :
    DateTime
    → Option (Row ExternalRepairInvoice)
    → ExternalRepairInvoice
    → Row ExternalRepairInvoice
stored_invoice now old i = record {
  entity = record i {
    created_at = kept (λ (j : ExternalRepairInvoice). j.created_at) old i.created_at;
    updated_at = now;
    vendor_id = blank_to_none i.vendor_id;
    document = blank_to_none i.document;
  };
  is_deleted = kept_flag old;
}

unfoldable pub stored_assignment :
    DateTime
    → Option (Row ExternalWorkshopAssignment)
    → ExternalWorkshopAssignment
    → Row ExternalWorkshopAssignment
stored_assignment now old a = record {
  entity = record a {
    created_at = kept (λ (b : ExternalWorkshopAssignment). b.created_at) old a.created_at;
    updated_at = now;
    workshop_id = blank_to_none a.workshop_id;
    cancellation_note = blank_to_none a.cancellation_note;
  };
  is_deleted = kept_flag old;
}

unfoldable pub stored_delivery :
    DateTime
    → Option (Row ExternalWorkshopDelivery)
    → ExternalWorkshopDelivery
    → Row ExternalWorkshopDelivery
stored_delivery now old d = record {
  entity = record d {
    created_at = kept (λ (e : ExternalWorkshopDelivery). e.created_at) old d.created_at;
    updated_at = now;
  };
  is_deleted = kept_flag old;
}

unfoldable pub stored_pickup :
    DateTime
    → Option (Row ExternalWorkshopPickup)
    → ExternalWorkshopPickup
    → Row ExternalWorkshopPickup
stored_pickup now old p = record {
  entity = record p {
    created_at = kept (λ (q : ExternalWorkshopPickup). q.created_at) old p.created_at;
    updated_at = now;
  };
  is_deleted = kept_flag old;
}

unfoldable pub stored_review :
    DateTime → Option (Row ExternalRepairReview) → ExternalRepairReview → Row ExternalRepairReview
stored_review now old r = record {
  entity = record r {
    created_at = kept (λ (s : ExternalRepairReview). s.created_at) old r.created_at;
    updated_at = now;
    invoice_attachment = blank_to_none r.invoice_attachment;
    sap_purchase_order_number = blank_to_none r.sap_purchase_order_number;
    sap_invoice_document_number = blank_to_none r.sap_invoice_document_number;
  };
  is_deleted = kept_flag old;
}

-- The items are deleted and inserted anew.
unfoldable pub stored_material :
    DateTime → Option (Row MaterialRequest) → MaterialRequest → Row MaterialRequest
stored_material now old r = record {
  entity = record r {
    created_at = kept (λ (s : MaterialRequest). s.created_at) old r.created_at;
    updated_at = now;
  };
  is_deleted = kept_flag old;
}
