-- ===== src/Repair/Edits.antt =====
-- Changes of activities and parts: the theorems at concrete orders.
use fmms.Prelude.{
  ◌≡◌, ◌⊎◌, ◌==◌, ◌>>◌, refl, true, false, none, [], ◌∷◌, ok, err, pos, Uuid, is_some,
  if◌then◌else◌,
}
use fmms.Repair.Status.{is_mutable, RepairOrderStatus-discrete}
use fmms.Repair.Order.{
  RepairOrder, RepairActivity, RepairPart, PartQuantity, LaborHours, new_order, invalid_state,
  activity_not_found, op_update_activity, op_delete_activity,
}
use fmms.Repair.Order.Items.{add_activity, update_activity, delete_activity}
use fmms.Repair.Activities.{
  find_activity, rewritten, add_delete_activity, delete_activity_lem, update_activity_lem,
}

abbrev two_hours : LaborHours
two_hours = record { hours = record { negative = false; digits = 2; exponent = pos 0 } }

abbrev four_pieces : PartQuantity
four_pieces = record { material_number = 77 ∷ []; quantity = pos 4; unit_of_measure = 69 ∷ [] }

abbrev weld : Uuid → RepairActivity
weld i = record {
  id = i;
  description = 87 ∷ [];
  labor_hours = two_hours;
  performed_by_id = 5;
  performed_at = 110;
  notes = none;
}

abbrev filter : Uuid → RepairPart
filter i = record { id = i; part_quantity = four_pieces; goods_issue_id = none; posted_at = none }

-- An order with the activities 7 and 8 and the parts 7 and 8.
abbrev busy_order : RepairOrder
busy_order = record (new_order 1 2 3 4 100) {
  activities = weld 7 ∷ weld 8 ∷ [];
  parts = filter 7 ∷ filter 8 ∷ [];
}

add_delete_activity_example :
    (add_activity (weld 9) >> delete_activity 9) busy_order ≡ (ok tt, busy_order)
unfolding is_mutable find_activity new_order RepairOrderStatus-discrete
add_delete_activity_example = add_delete_activity (weld 9) busy_order refl refl

delete_activity_lem_example :
    ((is_mutable busy_order.status ≡ false)
      × (delete_activity 8 busy_order
          ≡ (err (invalid_state busy_order.id busy_order.status op_delete_activity), busy_order)))
    ⊎ ((is_mutable busy_order.status ≡ true)
        × (find_activity 8 busy_order.activities ≡ none)
        × (delete_activity 8 busy_order ≡ (err (activity_not_found 8), busy_order)))
    ⊎ ((is_mutable busy_order.status ≡ true)
        × (is_some (find_activity 8 busy_order.activities) ≡ true)
        × ((delete_activity 8 busy_order).0 ≡ ok tt)
        × ((j : Uuid)
            → find_activity j (delete_activity 8 busy_order).1.activities
              ≡ (if j == 8 then none else find_activity j busy_order.activities)))
delete_activity_lem_example = delete_activity_lem 8 busy_order

update_activity_lem_example :
    ((is_mutable busy_order.status ≡ false)
      × (update_activity 8 (80 ∷ []) two_hours none busy_order
          ≡ (err (invalid_state busy_order.id busy_order.status op_update_activity), busy_order)))
    ⊎ ((is_mutable busy_order.status ≡ true)
        × (find_activity 8 busy_order.activities ≡ none)
        × (update_activity 8 (80 ∷ []) two_hours none busy_order
            ≡ (err (activity_not_found 8), busy_order)))
    ⊎ ((is_mutable busy_order.status ≡ true)
        × (is_some (find_activity 8 busy_order.activities) ≡ true)
        × ((update_activity 8 (80 ∷ []) two_hours none busy_order).0 ≡ ok tt)
        × ((j : Uuid)
            → find_activity j (update_activity 8 (80 ∷ []) two_hours none busy_order).1.activities
              ≡ (if j == 8
                  then rewritten (80 ∷ []) two_hours none (find_activity j busy_order.activities)
                  else find_activity j busy_order.activities)))
update_activity_lem_example = update_activity_lem 8 (80 ∷ []) two_hours none busy_order
