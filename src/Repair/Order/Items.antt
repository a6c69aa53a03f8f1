-- ===== src/Repair/Order/Items.antt =====
-- The methods of `RepairOrder` on its activities and its parts.
use fmms.Prelude.{
  Option, none, some, List, [], ◌∷◌, ◌++◌, ◌==◌, Uuid, Text, length, Update, ◌>>=◌, ◌>>◌, get,
  modify, raise, when, if◌then◌else◌,
}
use fmms.Repair.Order.{
  RepairOrder, RepairActivity, RepairPart, PartQuantity, LaborHours, RepairError,
  activity_not_found, part_not_found, op_add_activity, op_update_activity, op_delete_activity,
  op_add_part, op_update_part, op_delete_part, assert_mutable,
}

unfoldable pub add_activity : RepairActivity → Update RepairOrder RepairError
unfolding assert_mutable
add_activity a = do
  assert_mutable op_add_activity
  modify (λ o. record o { activities = o.activities ++ (a ∷ []) })

-- The loop of `update_activity`: the first activity with the id is written; `none` if there is none.
unfoldable pub update_first_activity :
    Uuid → Text → LaborHours → Option Text → List RepairActivity → Option (List RepairActivity)
update_first_activity i d h n [] = none
update_first_activity i d h n (a ∷ l) =
    let rest = update_first_activity i d h n l in
    if a.id == i
    then some (record a { description = d; labor_hours = h; notes = n } ∷ l)
    else elim rest [ none ↦ none | some l' ↦ some (a ∷ l') ]

unfoldable pub update_activity :
    Uuid → Text → LaborHours → Option Text → Update RepairOrder RepairError
unfolding assert_mutable
update_activity i d h n = do
  assert_mutable op_update_activity
  o ← get
  elim (update_first_activity i d h n o.activities) [
    | none ↦ raise (activity_not_found i)
    | some l ↦ modify (λ p. record p { activities = l })
  ]

-- `[activity for activity in activities if activity.id != activity_id]`
unfoldable pub activities_without : Uuid → List RepairActivity → List RepairActivity
activities_without i [] = []
activities_without i (a ∷ l) =
    if a.id == i then activities_without i l else a ∷ activities_without i l

unfoldable pub delete_activity : Uuid → Update RepairOrder RepairError
unfolding assert_mutable
delete_activity i = do
  assert_mutable op_delete_activity
  o ← get
  when (length (activities_without i o.activities) == length o.activities)
      (raise (activity_not_found i))
  modify (λ p. record p { activities = activities_without i o.activities })

unfoldable pub add_part : RepairPart → Update RepairOrder RepairError
unfolding assert_mutable
add_part a = do assert_mutable op_add_part; modify (λ o. record o { parts = o.parts ++ (a ∷ []) })

-- The loop of `update_part`.
unfoldable pub update_first_part : Uuid → PartQuantity → List RepairPart → Option (List RepairPart)
update_first_part i q [] = none
update_first_part i q (a ∷ l) =
    let rest = update_first_part i q l in
    if a.id == i
    then some (record a { part_quantity = q } ∷ l)
    else elim rest [ none ↦ none | some l' ↦ some (a ∷ l') ]

unfoldable pub update_part : Uuid → PartQuantity → Update RepairOrder RepairError
unfolding assert_mutable
update_part i q = do
  assert_mutable op_update_part
  o ← get
  elim (update_first_part i q o.parts) [
    | none ↦ raise (part_not_found i)
    | some l ↦ modify (λ p. record p { parts = l })
  ]

unfoldable pub parts_without : Uuid → List RepairPart → List RepairPart
parts_without i [] = []
parts_without i (a ∷ l) = if a.id == i then parts_without i l else a ∷ parts_without i l

unfoldable pub delete_part : Uuid → Update RepairOrder RepairError
unfolding assert_mutable
delete_part i = do
  assert_mutable op_delete_part
  o ← get
  when (length (parts_without i o.parts) == length o.parts) (raise (part_not_found i))
  modify (λ p. record p { parts = parts_without i o.parts })
