-- ===== src/Repair/Activities.antt =====
-- The methods on the activities of an order, against look-ups by id.
use fmms.Prelude.{
  ◌+◌, ◌≤◌, ◌≡◌, ◌⊎◌, refl, inl, inr, true, false, Option, none, some, List, [], ◌∷◌, ◌++◌, ◌==◌,
  Uuid, Text, length, ok, err, ◌>>◌, if◌then◌else◌, Bool-cases, Option-cases, arith, is_some,
}
use fmms.Repair.Status.{is_mutable}
use fmms.Repair.Order.{
  RepairOrder, RepairActivity, LaborHours, activity_not_found, invalid_state, op_delete_activity,
  op_update_activity, assert_mutable,
}
use fmms.Repair.Order.Items.{
  add_activity, update_activity, update_first_activity, delete_activity, activities_without,
}

-- The first activity with an id.
unfoldable pub find_activity : Uuid → List RepairActivity → Option RepairActivity
find_activity i [] = none
find_activity i (a ∷ l) = if a.id == i then some a else find_activity i l

length-without : (i : Uuid) (l : List RepairActivity) → length (activities_without i l) ≤ length l
unfolding activities_without
length-without i [] = omega arith
length-without i (a ∷ l) = ground (arith, length-without i l)

without_absent :
    (i : Uuid) (l : List RepairActivity) → find_activity i l ≡ none → activities_without i l ≡ l
unfolding activities_without find_activity
without_absent i [] h = refl
without_absent i (a ∷ l) h = ground (arith, without_absent i l)

length-without_present :
    (i : Uuid) (l : List RepairActivity) {a : RepairActivity}
    → find_activity i l ≡ some a
    → length (activities_without i l) + 1 ≤ length l
unfolding activities_without find_activity
length-without_present i [] h = cc
length-without_present i (b ∷ l) {a} h =
    ground (arith, length-without i l, length-without_present i l {a = a})

find_activity-without :
    (i j : Uuid) (l : List RepairActivity)
    → find_activity j (activities_without i l) ≡ (if j == i then none else find_activity j l)
unfolding activities_without find_activity
find_activity-without i j [] = ground arith
find_activity-without i j (a ∷ l) = ground (arith, find_activity-without i j l)

delete_activity_present :
    (i : Uuid) (o : RepairOrder) {a : RepairActivity}
    → is_mutable o.status ≡ true
    → find_activity i o.activities ≡ some a
    → delete_activity i o ≡ (ok tt, record o { activities = activities_without i o.activities })
unfolding delete_activity assert_mutable
delete_activity_present i o {a} e f =
    ground (arith, length-without_present i o.activities {a = a} f)

-- `delete_activity` on every branch: a closed order refuses it, an unknown id is reported, and both
-- leave the order unchanged; where the order is open and has an activity with the id, the call
-- succeeds, no activity has the id any more and every other id finds the
-- activity that it found before.
pub delete_activity_lem :
    (i : Uuid) (o : RepairOrder)
    → ((is_mutable o.status ≡ false)
        × (delete_activity i o ≡ (err (invalid_state o.id o.status op_delete_activity), o)))
      ⊎ ((is_mutable o.status ≡ true)
          × (find_activity i o.activities ≡ none)
          × (delete_activity i o ≡ (err (activity_not_found i), o)))
      ⊎ ((is_mutable o.status ≡ true)
          × (is_some (find_activity i o.activities) ≡ true)
          × ((delete_activity i o).0 ≡ ok tt)
          × ((j : Uuid)
              → find_activity j (delete_activity i o).1.activities
                ≡ (if j == i then none else find_activity j o.activities)))
unfolding delete_activity assert_mutable
delete_activity_lem i o = elim (Bool-cases (is_mutable o.status)) [
  | inr e ↦ inl (e, rw e refl)
  | inl e ↦ elim (Option-cases (find_activity i o.activities)) [
    | inl f ↦ inr (inl (e, f, ground (arith, without_absent i o.activities f)))
    | inr (a, f) ↦ inr (
        inr (
          rw (delete_activity_present i o {a = a} e f)
            (e, rw f refl, refl, λ j. find_activity-without i j o.activities)))
  ]
]

without-append :
    (a : RepairActivity) (l : List RepairActivity)
    → find_activity a.id l ≡ none
    → activities_without a.id (l ++ (a ∷ [])) ≡ l
unfolding activities_without find_activity
without-append a [] h = ground arith
without-append a (b ∷ l) h = ground (arith, without-append a l)

find_activity-append :
    (a : RepairActivity) (l : List RepairActivity)
    → find_activity a.id l ≡ none
    → find_activity a.id (l ++ (a ∷ [])) ≡ some a
unfolding find_activity
find_activity-append a [] h = ground arith
find_activity-append a (b ∷ l) h = ground (arith, find_activity-append a l)

add_activity_mutable :
    (a : RepairActivity) (o : RepairOrder)
    → is_mutable o.status ≡ true
    → add_activity a o ≡ (ok tt, record o { activities = o.activities ++ (a ∷ []) })
unfolding add_activity assert_mutable
add_activity_mutable a o e = rw e refl

-- On an order that is open to changes, to add an activity with a new id and to delete it again, by
-- that id, gives back the order, and neither call raises.
pub add_delete_activity :
    (a : RepairActivity) (o : RepairOrder)
    → is_mutable o.status ≡ true
    → find_activity a.id o.activities ≡ none
    → (add_activity a >> delete_activity a.id) o ≡ (ok tt, o)
add_delete_activity a o e f =
    rw
      (
        add_activity_mutable a o e,
        delete_activity_present a.id (record o { activities = o.activities ++ (a ∷ []) }) {a = a} e
            (find_activity-append a o.activities f),
        without-append a o.activities f,
      )
      refl

-- What `update_activity` makes of the activity that an id finds.
abbrev pub rewritten :
    Text → LaborHours → Option Text → Option RepairActivity → Option RepairActivity
rewritten d h n none = none
rewritten d h n (some a) = some (record a { description = d; labor_hours = h; notes = n })

update_first_absent :
    (i : Uuid) (d : Text) (h : LaborHours) (n : Option Text) (l : List RepairActivity)
    → find_activity i l ≡ none
    → update_first_activity i d h n l ≡ none
unfolding update_first_activity find_activity
update_first_absent i d h n [] e = refl
update_first_absent i d h n (a ∷ l) e = ground (arith, update_first_absent i d h n l)

-- The list that the loop leaves where it finds the activity.
unfoldable activities_with :
    Uuid → Text → LaborHours → Option Text → List RepairActivity → List RepairActivity
activities_with i d h n [] = []
activities_with i d h n (a ∷ l) =
    if a.id == i
    then record a { description = d; labor_hours = h; notes = n } ∷ l
    else a ∷ activities_with i d h n l

update_first_present :
    (i : Uuid) (d : Text) (h : LaborHours) (n : Option Text) (l : List RepairActivity)
    {a : RepairActivity}
    → find_activity i l ≡ some a
    → update_first_activity i d h n l ≡ some (activities_with i d h n l)
unfolding update_first_activity find_activity activities_with
update_first_present i d h n [] e = cc
update_first_present i d h n (b ∷ l) {a} e = ground (arith, update_first_present i d h n l {a = a})

find_activity-with :
    (i j : Uuid) (d : Text) (h : LaborHours) (n : Option Text) (l : List RepairActivity)
    → find_activity j (activities_with i d h n l)
      ≡ (if j == i then rewritten d h n (find_activity j l) else find_activity j l)
unfolding find_activity activities_with
find_activity-with i j d h n [] = ground arith
find_activity-with i j d h n (a ∷ l) = ground (arith, find_activity-with i j d h n l)

update_activity_absent :
    (i : Uuid) (d : Text) (h : LaborHours) (n : Option Text) (o : RepairOrder)
    → is_mutable o.status ≡ true
    → find_activity i o.activities ≡ none
    → update_activity i d h n o ≡ (err (activity_not_found i), o)
unfolding update_activity assert_mutable
update_activity_absent i d h n o e f = ground (arith, update_first_absent i d h n o.activities f)

update_activity_present :
    (i : Uuid) (d : Text) (h : LaborHours) (n : Option Text) (o : RepairOrder) {a : RepairActivity}
    → is_mutable o.status ≡ true
    → find_activity i o.activities ≡ some a
    → update_activity i d h n o
      ≡ (ok tt, record o { activities = activities_with i d h n o.activities })
unfolding update_activity assert_mutable
update_activity_present i d h n o {a} e f =
    ground (arith, update_first_present i d h n o.activities {a = a} f)

-- `update_activity` on every branch: a closed order refuses it, an unknown id is reported, and both
-- leave the order unchanged; where the order is open and has an activity with the id, the call
-- succeeds, the id finds the activity that it found before with the new
-- description, hours and notes, and every other id finds what it found before.
pub update_activity_lem :
    (i : Uuid) (d : Text) (h : LaborHours) (n : Option Text) (o : RepairOrder)
    → ((is_mutable o.status ≡ false)
        × (update_activity i d h n o ≡ (err (invalid_state o.id o.status op_update_activity), o)))
      ⊎ ((is_mutable o.status ≡ true)
          × (find_activity i o.activities ≡ none)
          × (update_activity i d h n o ≡ (err (activity_not_found i), o)))
      ⊎ ((is_mutable o.status ≡ true)
          × (is_some (find_activity i o.activities) ≡ true)
          × ((update_activity i d h n o).0 ≡ ok tt)
          × ((j : Uuid)
              → find_activity j (update_activity i d h n o).1.activities ≡ (
                  if j == i
                  then rewritten d h n (find_activity j o.activities)
                  else find_activity j o.activities)))
unfolding update_activity assert_mutable
update_activity_lem i d h n o = elim (Bool-cases (is_mutable o.status)) [
  | inr e ↦ inl (e, rw e refl)
  | inl e ↦ elim (Option-cases (find_activity i o.activities)) [
    | inl f ↦ inr (inl (e, f, update_activity_absent i d h n o e f))
    | inr (a, f) ↦ inr (
        inr (
          rw (update_activity_present i d h n o {a = a} e f)
            (e, rw f refl, refl, λ j. find_activity-with i j d h n o.activities)))
  ]
]
