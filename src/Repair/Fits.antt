-- ===== src/Repair/Fits.antt =====
-- What the status of an order asks of its data, and how the edges of the table keep it.
use fmms.Prelude.{
  not, ◌&&◌, Bool, true, false, ◌≡◌, refl, Option, none, some, Uuid, DateTime, arith, is_some,
}
use fmms.Repair.Status.{
  RepairOrderStatus, created, approved, workshop_assigned, waiting_external_referral_approval,
  waiting_external_delivery, external_repair_in_progress, waiting_external_pickup,
  waiting_external_admin_review, waiting_workshop_confirmation, waiting_parts, assigned,
  in_progress, waiting_driver_confirmation, waiting_transport_final_approval, accepted_by_driver,
  rejected_by_driver, rejected_by_transport, no_repair_needed, completed, cancelled, WorkshopType,
  internal, external, allows,
}
use fmms.Repair.Order.{RepairOrder, new_order}

-- `self.workshop_type is None`, `== INTERNAL`, `== EXTERNAL`.
abbrev pub unassigned : Option WorkshopType → Bool
unassigned none = true
unassigned _ = false

abbrev pub at_internal : Option WorkshopType → Bool
at_internal (some internal) = true
at_internal _ = false

abbrev pub at_external : Option WorkshopType → Bool
at_external (some external) = true
at_external _ = false

-- What a status asks of the workshop type, and of whether the times and texts are set that
-- `completed_at`, `assignment` and `transport_rejection_reason` hold.
unfoldable pub fits : RepairOrderStatus → Option WorkshopType → Bool → Bool → Bool → Bool
fits created w done tech reason = unassigned w
fits approved w done tech reason = unassigned w
fits rejected_by_transport w done tech reason = unassigned w && reason
fits workshop_assigned w done tech reason = at_internal w
fits waiting_workshop_confirmation w done tech reason = at_internal w
fits no_repair_needed w done tech reason = at_internal w
fits waiting_external_referral_approval w done tech reason = at_external w
fits waiting_external_delivery w done tech reason = at_external w
fits external_repair_in_progress w done tech reason = at_external w
fits waiting_external_pickup w done tech reason = at_external w
fits waiting_external_admin_review w done tech reason = at_external w
fits assigned w done tech reason = not (at_external w) && tech
fits in_progress w done tech reason = not (at_external w)
fits waiting_parts w done tech reason = not (at_external w)
fits waiting_driver_confirmation w done tech reason = done
fits waiting_transport_final_approval w done tech reason = done
fits rejected_by_driver w done tech reason = done
fits completed w done tech reason = done
fits cancelled w done tech reason = true
fits accepted_by_driver w done tech reason = false

abbrev pub IsConsistent : RepairOrder → Type 0
IsConsistent o =
    fits o.status o.workshop_type (is_some o.completed_at) (is_some o.assignment)
      (is_some o.transport_rejection_reason)
    ≡ true

pub new_order-IsConsistent : (i v f u : Uuid) (t : DateTime) → IsConsistent (new_order i v f u t)
unfolding new_order fits
new_order-IsConsistent i v f u t = refl

-- The targets that a method reaches by `transition_to` alone.
abbrev pub plain : RepairOrderStatus → Bool
plain approved = true
plain external_repair_in_progress = true
plain waiting_external_pickup = true
plain waiting_external_admin_review = true
plain waiting_workshop_confirmation = true
plain no_repair_needed = true
plain in_progress = true
plain waiting_parts = true
plain waiting_transport_final_approval = true
plain rejected_by_driver = true
plain cancelled = true
plain _ = false

-- Along an edge of the table to such a target, the data goes on to fit.
pub fits-allows :
    (s t : RepairOrderStatus) (w : Option WorkshopType) (d a r : Bool)
    → allows s t ≡ true
    → plain t ≡ true
    → fits s w d a r ≡ true
    → fits t w d a r ≡ true
unfolding allows fits
fits-allows created t w d a r e k h = ground arith
fits-allows _ t w d a r e k h = ground arith

-- A technician is assigned before a workshop is, or in an internal one.
pub fits-assigned :
    (s : RepairOrderStatus) (w : Option WorkshopType) (d a r : Bool)
    → allows s assigned ≡ true
    → fits s w d a r ≡ true
    → fits assigned w d true r ≡ true
unfolding allows fits
fits-assigned created w d a r e h = ground arith
fits-assigned _ w d a r e h = ground arith

module _ (o : RepairOrder) where
  -- `fits-allows` at the data of an order.
  abbrev pub step :
      (t : RepairOrderStatus)
      → allows o.status t ≡ true
      → plain t ≡ true
      → IsConsistent o
      → fits t o.workshop_type
          (is_some o.completed_at)
          (is_some o.assignment)
          (is_some o.transport_rejection_reason)
        ≡ true
  step t =
      fits-allows o.status t o.workshop_type (is_some o.completed_at) (is_some o.assignment)
        (is_some o.transport_rejection_reason)
