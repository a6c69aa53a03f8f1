-- ===== src/Workflow/Reload.antt =====
-- An entity that is saved and loaded.
use fmms.Prelude.{
  ◌≡◌, arith, refl, Option, none, some, List, [], ◌∷◌, All, DateTime, Uuid, Text, blank_to_none,
  map, false, ok,
}
use fmms.Repair.Order.{RepairOrder, RepairActivity}
use fmms.Vehicle.Entity.{Vehicle}
use fmms.Handover.{VehicleHandover}
use fmms.Workflow.Table.{Row, row_of, row_of-put, put, find}
use fmms.Workflow.Stored.{
  stored_activity, stored_order, stored_vehicle, stored_handover, kept, kept_flag,
}
use fmms.Workflow.Database.{
  Database, order_id, vehicle_id, handover_id, load_order, load_vehicle, load_handover, save_order,
  save_vehicle, save_handover,
}

-- A text that may be missing is not blank.
abbrev pub IsClean : Option Text → Type 0
IsClean t = blank_to_none t ≡ t

-- No text of the order that may be missing is blank.
abbrev pub HasCleanTexts : RepairOrder → Type 0
HasCleanTexts o =
    IsClean o.sap_order_number
    × IsClean o.workshop_id
    × IsClean o.transport_rejection_reason
    × IsClean o.transport_approval_note
    × IsClean o.workshop_decision_note
    × All (λ (a : RepairActivity). IsClean a.notes) o.activities

-- A row of the entity is not marked as deleted.
abbrev pub IsLive : {A : Type 0} → Option (Row A) → Type 0
IsLive none = Unit {0}
IsLive (some r) = r.is_deleted ≡ false

activities_kept :
    (l : List RepairActivity)
    → All (λ (a : RepairActivity). IsClean a.notes) l
    → map stored_activity l ≡ l
unfolding stored_activity
activities_kept [] h = refl
activities_kept (a ∷ l) (h, hs) = rw (h, activities_kept l hs) refl

live-kept_flag : {A : Type 0} (r : Option (Row A)) → IsLive r → kept_flag r ≡ false
live-kept_flag none h = refl
live-kept_flag (some r) h = h

module _ {A : Type 0} (id_of : A → Uuid) (stored : Option (Row A) → A → Row A) where
  -- The row that a save leaves, and the entity that is found in it.
  saved-row_of :
      (a : A) (rows : List (Row A)) {r : Row A}
      → ((o : Option (Row A)) (c : A) → id_of (stored o c).entity ≡ id_of c)
      → stored (row_of id_of (id_of a) rows) a ≡ r
      → row_of id_of (id_of a) (put id_of stored a rows) ≡ some r
  saved-row_of a rows keeps e =
      rw (row_of-put id_of stored keeps (id_of a) a rows, e) (ground arith)

  find-put :
      (a : A) (rows : List (Row A)) {b : A}
      → ((o : Option (Row A)) (c : A) → id_of (stored o c).entity ≡ id_of c)
      → stored (row_of id_of (id_of a) rows) a ≡ record { entity = b; is_deleted = false }
      → find id_of (id_of a) (put id_of stored a rows) ≡ some b
  find-put a rows keeps e = rw (saved-row_of a rows keeps e) refl

-- The order, the vehicle and the hand-over that a load finds: those that were saved, but for the two
-- times.
abbrev pub reloaded_order : DateTime → Option (Row RepairOrder) → RepairOrder → RepairOrder
reloaded_order now old o = record o {
  created_at = kept (λ (p : RepairOrder). p.created_at) old o.created_at;
  updated_at = now;
}

abbrev pub reloaded_vehicle : DateTime → Option (Row Vehicle) → Vehicle → Vehicle
reloaded_vehicle now old v = record v {
  created_at = kept (λ (w : Vehicle). w.created_at) old v.created_at;
  updated_at = now;
}

abbrev pub reloaded_handover :
    DateTime → Option (Row VehicleHandover) → VehicleHandover → VehicleHandover
reloaded_handover now old h = record h {
  created_at = kept (λ (k : VehicleHandover). k.created_at) old h.created_at;
  updated_at = now;
}

-- A repair order, a vehicle or a hand-over that is saved and loaded again is the one that was saved,
-- an order with all its activities and parts, but for the time of its creation, which stays that of
-- its row, and the time of its last change, which is that of the save. No text that may be missing is
-- assumed to be blank, since a blank text is loaded as a missing one; and the rows of the order and of
-- the hand-over, if there are any, not to be deleted: that of a vehicle is no longer. The rounding of
-- decimal columns is not modelled.
pub save-load :
    (now : DateTime) (o : RepairOrder) (v : Vehicle) (h : VehicleHandover) (db : Database)
    → HasCleanTexts o
    → IsClean v.commissioning_date
      × IsClean v.driver1_customer_number
      × IsClean v.driver2_customer_number
    → IsClean h.comment
    → IsLive (row_of order_id o.id db.orders)
    → IsLive (row_of handover_id h.id db.handovers)
    → ((load_order o.id (save_order now o db).1).0
        ≡ ok (reloaded_order now (row_of order_id o.id db.orders) o))
      × ((load_vehicle v.id (save_vehicle now v db).1).0
          ≡ ok (reloaded_vehicle now (row_of vehicle_id v.id db.vehicles) v))
      × ((load_handover h.id (save_handover now h db).1).0
          ≡ ok (reloaded_handover now (row_of handover_id h.id db.handovers) h))
unfolding load_order save_order stored_order load_vehicle save_vehicle stored_vehicle load_handover
    save_handover stored_handover
save-load now o v h db (a, b, c, d, e, l) (f, g, k) n live lived = (
  rw
      (find-put order_id (stored_order now) o db.orders
        {b = reloaded_order now (row_of order_id o.id db.orders) o} (λ q p. refl)
        (simp
          (
            a,
            b,
            c,
            d,
            e,
            activities_kept o.activities l,
            live-kept_flag (row_of order_id o.id db.orders) live,
          )
          refl))
      refl,
  rw
      (saved-row_of vehicle_id (stored_vehicle now) v db.vehicles
        {r = record {
          entity = reloaded_vehicle now (row_of vehicle_id v.id db.vehicles) v;
          is_deleted = false;
        }}
        (λ q p. refl) (simp (f, g, k) refl))
      refl,
  rw
      (find-put handover_id (stored_handover now) h db.handovers
        {b = reloaded_handover now (row_of handover_id h.id db.handovers) h} (λ q p. refl)
        (simp (n, live-kept_flag (row_of handover_id h.id db.handovers) lived) refl))
      refl,
)
