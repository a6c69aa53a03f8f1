-- ===== src/Workflow/OneOrder/External.antt =====
-- The services of the external workshop keep the rule of one order for each fault.
use fmms.Prelude.{Option, none, some, Uuid, DateTime, Text, refl}
use fmms.Repair.Order
use fmms.Repair.Order.{RepairOrder}
use fmms.Repair.Lifecycle.{Call as Action, apply}
use fmms.Repair.External.{
  ExternalWorkshopAssignment, ExternalWorkshopDelivery, ExternalWorkshopPickup,
  ExternalRepairReview, CancellationReason,
}
use fmms.Workflow.Database.{save_delivery, save_pickup, save_review}
use fmms.Workflow.Rules.{
  OneOrder, Quiet, Keeps, Loaded, Quiet-Keeps, Quiet-then, Keeps-load, Keeps-if, Keeps-atomic,
  keeps_rules,
}
use fmms.Workflow.Advance.{Advances}
use fmms.Workflow.Quiet.{quiet_rules, shared_rules}
use fmms.Workflow.Change.{Keeps-change, apply-Advances, Loaded-Keeps}
use fmms.Workflow.External.{
  AssignmentData, load_assignment, delivery_of, pickup_of, review_of, assign_new,
  replace_assignment, assign_over, assign_external_workshop, cancel_external_assignment,
}
use fmms.Workflow.Delivery.{
  DeliveryData, PickupData, start_external_repair, confirm_delivery, take_back, confirm_pickup,
}
use fmms.Workflow.OneOrder.Workshop.{Quiet-active_assignment}

pub Quiet-load_assignment : (i : Uuid) → Quiet (load_assignment i)
unfolding load_assignment
Quiet-load_assignment i = search quiet_rules

Quiet-delivery_of : (i : Uuid) → Quiet (delivery_of i)
unfolding delivery_of
Quiet-delivery_of i = search quiet_rules

pub Quiet-pickup_of : (i : Uuid) → Quiet (pickup_of i)
unfolding pickup_of
Quiet-pickup_of i = search quiet_rules

pub Quiet-review_of : (i : Uuid) → Quiet (review_of i)
unfolding review_of
Quiet-review_of i = search quiet_rules

Quiet-save_delivery : (now : DateTime) (d : ExternalWorkshopDelivery) → Quiet (save_delivery now d)
unfolding save_delivery
Quiet-save_delivery now d = record { at = λ db. refl }

Quiet-save_pickup : (now : DateTime) (p : ExternalWorkshopPickup) → Quiet (save_pickup now p)
unfolding save_pickup
Quiet-save_pickup now p = record { at = λ db. refl }

pub Quiet-save_review : (now : DateTime) (r : ExternalRepairReview) → Quiet (save_review now r)
unfolding save_review
Quiet-save_review now r = record { at = λ db. refl }

assign_new-Keeps :
    (fresh : Uuid) (o : RepairOrder) (d : AssignmentData) (user : Uuid) (now : DateTime)
    → Keeps (Loaded o) (assign_new fresh o d user now)
unfolding assign_new apply
assign_new-Keeps fresh o d user now =
    Keeps-change now o (apply-Advances (Action.assign_external_workshop d.workshop_id))
      λ p. Quiet-Keeps (search quiet_rules)

Quiet-replace_assignment :
    (t : Text) (a : ExternalWorkshopAssignment) (o : RepairOrder) (user : Uuid) (now : DateTime)
    → Quiet (replace_assignment t a o user now)
unfolding replace_assignment
Quiet-replace_assignment t a o user now = search quiet_rules

assign_over-Keeps :
    (t : Text) (fresh : Uuid) (o : RepairOrder) (d : AssignmentData) (user : Uuid) (now : DateTime)
    (a : Option ExternalWorkshopAssignment)
    → Keeps (Loaded o) (assign_over t fresh o d user now a)
unfolding assign_over
assign_over-Keeps t fresh o d user now none = assign_new-Keeps fresh o d user now
assign_over-Keeps t fresh o d user now (some a) =
    search
      (
        quiet_rules, Quiet-then, Keeps-if, Loaded-Keeps, Quiet-Keeps, Quiet-delivery_of,
        Quiet-replace_assignment, assign_new-Keeps,
      )
      depth 10

pub assign_external-Keeps :
    (t : Text) (fresh i : Uuid) (d : AssignmentData) (user : Uuid) (now : DateTime)
    → Keeps OneOrder (assign_external_workshop t fresh i d user now)
unfolding assign_external_workshop
assign_external-Keeps t fresh i d user now =
    Keeps-atomic (search (Keeps-load, Quiet-then, Quiet-active_assignment, assign_over-Keeps))

start_external-Keeps :
    (o : RepairOrder) (vehicle user : Uuid) (now : DateTime)
    → Keeps (Loaded o) (start_external_repair o vehicle user now)
unfolding start_external_repair apply
start_external-Keeps o vehicle user now =
    Keeps-change now o (apply-Advances Action.confirm_external_delivery)
      λ p. Quiet-Keeps (search shared_rules)

pub confirm_delivery-Keeps :
    (fresh i : Uuid) (d : DeliveryData) (user : Uuid) (now : DateTime)
    → Keeps OneOrder (confirm_delivery fresh i d user now)
unfolding confirm_delivery
confirm_delivery-Keeps fresh i d user now = Keeps-atomic (
    Quiet-then (Quiet-load_assignment i) λ a.
      search
        (quiet_rules, keeps_rules, Quiet-delivery_of, Quiet-save_delivery, start_external-Keeps)
        depth 14 fits 9000)

take_back-Keeps :
    (o : RepairOrder) (vehicle user : Uuid) (now : DateTime)
    → Keeps (Loaded o) (take_back o vehicle user now)
unfolding take_back apply
take_back-Keeps o vehicle user now =
    Keeps-change now o (apply-Advances Action.confirm_external_pickup)
      λ p. Quiet-Keeps (search shared_rules)

pub confirm_pickup-Keeps :
    (fresh i : Uuid) (d : PickupData) (user : Uuid) (now : DateTime)
    → Keeps OneOrder (confirm_pickup fresh i d user now)
unfolding confirm_pickup
confirm_pickup-Keeps fresh i d user now = Keeps-atomic (
    Quiet-then (Quiet-load_assignment i) λ a.
      search
        (
          quiet_rules, keeps_rules, Quiet-delivery_of, Quiet-pickup_of, Quiet-save_pickup,
          take_back-Keeps,
        )
        depth 16 fits 9000)

cancel-Advances : Advances Order.cancel
unfolding apply
cancel-Advances = apply-Advances Action.cancel

pub cancel_external-Keeps :
    (i : Uuid) (reason : CancellationReason) (t : Option Text) (user : Uuid) (now : DateTime)
    → Keeps OneOrder (cancel_external_assignment i reason t user now)
unfolding cancel_external_assignment
cancel_external-Keeps i reason t user now = Keeps-atomic (
    Quiet-then (Quiet-load_assignment i) λ a.
      search (quiet_rules, keeps_rules, Quiet-delivery_of, Keeps-change, cancel-Advances) depth 14
        fits 9000)
