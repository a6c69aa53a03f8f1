-- ===== src/Repair/Parts.antt =====
-- The methods on the parts of an order, against look-ups by id.
use fmms.Prelude.{
  ◌+◌, ◌≤◌, ◌≡◌, ◌⊎◌, refl, inl, inr, true, false, Option, none, some, List, [], ◌∷◌, ◌++◌, ◌==◌,
  Uuid, length, ok, err, ◌>>◌, if◌then◌else◌, Bool-cases, Option-cases, arith,
}
use fmms.Repair.Status.{is_mutable}
use fmms.Repair.Order.{
  RepairOrder, RepairPart, PartQuantity, part_not_found, invalid_state, op_delete_part,
  op_update_part, assert_mutable,
}
use fmms.Repair.Order.Items.{add_part, update_part, update_first_part, delete_part, parts_without}

-- The first part with an id.
unfoldable pub find_part : Uuid → List RepairPart → Option RepairPart
find_part i [] = none
find_part i (a ∷ l) = if a.id == i then some a else find_part i l

length-without : (i : Uuid) (l : List RepairPart) → length (parts_without i l) ≤ length l
unfolding parts_without
length-without i [] = omega arith
length-without i (a ∷ l) = ground (arith, length-without i l)

without_absent : (i : Uuid) (l : List RepairPart) → find_part i l ≡ none → parts_without i l ≡ l
unfolding parts_without find_part
without_absent i [] h = refl
without_absent i (a ∷ l) h = ground (arith, without_absent i l)

length-without_present :
    (i : Uuid) (l : List RepairPart) {a : RepairPart}
    → find_part i l ≡ some a
    → length (parts_without i l) + 1 ≤ length l
unfolding parts_without find_part
length-without_present i [] h = cc
length-without_present i (b ∷ l) {a} h =
    ground (arith, length-without i l, length-without_present i l {a = a})

find_part-without :
    (i j : Uuid) (l : List RepairPart)
    → find_part j (parts_without i l) ≡ (if j == i then none else find_part j l)
unfolding parts_without find_part
find_part-without i j [] = ground arith
find_part-without i j (a ∷ l) = ground (arith, find_part-without i j l)

delete_part_present :
    (i : Uuid) (o : RepairOrder) {a : RepairPart}
    → is_mutable o.status ≡ true
    → find_part i o.parts ≡ some a
    → delete_part i o ≡ (ok tt, record o { parts = parts_without i o.parts })
unfolding delete_part assert_mutable
delete_part_present i o {a} e f = ground (arith, length-without_present i o.parts {a = a} f)

-- `delete_part` on every branch: a closed order refuses it, an unknown id is reported, and both
-- leave the order unchanged; otherwise no part has the id any more and every other id finds the
-- part that it found before.
delete_part_lem :
    (i : Uuid) (o : RepairOrder)
    → ((is_mutable o.status ≡ false)
        × (delete_part i o ≡ (err (invalid_state o.id o.status op_delete_part), o)))
      ⊎ ((is_mutable o.status ≡ true)
          × (find_part i o.parts ≡ none)
          × (delete_part i o ≡ (err (part_not_found i), o)))
      ⊎ (((delete_part i o).0 ≡ ok tt)
          × ((j : Uuid)
              → find_part j (delete_part i o).1.parts
                ≡ (if j == i then none else find_part j o.parts)))
unfolding delete_part assert_mutable
delete_part_lem i o = elim (Bool-cases (is_mutable o.status)) [
  | inr e ↦ inl (e, rw e refl)
  | inl e ↦ elim (Option-cases (find_part i o.parts)) [
    | inl f ↦ inr (inl (e, f, ground (arith, without_absent i o.parts f)))
    | inr (a, f) ↦
        inr (
          inr (rw (delete_part_present i o {a = a} e f) (refl, λ j. find_part-without i j o.parts)))
  ]
]

without-append :
    (a : RepairPart) (l : List RepairPart)
    → find_part a.id l ≡ none
    → parts_without a.id (l ++ (a ∷ [])) ≡ l
unfolding parts_without find_part
without-append a [] h = ground arith
without-append a (b ∷ l) h = ground (arith, without-append a l)

find_part-append :
    (a : RepairPart) (l : List RepairPart)
    → find_part a.id l ≡ none
    → find_part a.id (l ++ (a ∷ [])) ≡ some a
unfolding find_part
find_part-append a [] h = ground arith
find_part-append a (b ∷ l) h = ground (arith, find_part-append a l)

add_part_mutable :
    (a : RepairPart) (o : RepairOrder)
    → is_mutable o.status ≡ true
    → add_part a o ≡ (ok tt, record o { parts = o.parts ++ (a ∷ []) })
unfolding add_part assert_mutable
add_part_mutable a o e = rw e refl

-- On an order that is open to changes, to add a part with a new id and to delete it again, by
-- that id, gives back the order, and neither call raises.
add_delete_part :
    (a : RepairPart) (o : RepairOrder)
    → is_mutable o.status ≡ true
    → find_part a.id o.parts ≡ none
    → (add_part a >> delete_part a.id) o ≡ (ok tt, o)
add_delete_part a o e f =
    rw
      (
        add_part_mutable a o e,
        delete_part_present a.id (record o { parts = o.parts ++ (a ∷ []) }) {a = a} e
            (find_part-append a o.parts f),
        without-append a o.parts f,
      )
      refl

-- What `update_part` makes of the part that an id finds.
abbrev pub rewritten : PartQuantity → Option RepairPart → Option RepairPart
rewritten q none = none
rewritten q (some a) = some (record a { part_quantity = q })

update_first_absent :
    (i : Uuid) (q : PartQuantity) (l : List RepairPart)
    → find_part i l ≡ none
    → update_first_part i q l ≡ none
unfolding update_first_part find_part
update_first_absent i q [] e = refl
update_first_absent i q (a ∷ l) e = ground (arith, update_first_absent i q l)

-- The list that the loop leaves where it finds the part.
unfoldable parts_with : Uuid → PartQuantity → List RepairPart → List RepairPart
parts_with i q [] = []
parts_with i q (a ∷ l) =
    if a.id == i then record a { part_quantity = q } ∷ l else a ∷ parts_with i q l

update_first_present :
    (i : Uuid) (q : PartQuantity) (l : List RepairPart) {a : RepairPart}
    → find_part i l ≡ some a
    → update_first_part i q l ≡ some (parts_with i q l)
unfolding update_first_part find_part parts_with
update_first_present i q [] e = cc
update_first_present i q (b ∷ l) {a} e = ground (arith, update_first_present i q l {a = a})

find_part-with :
    (i j : Uuid) (q : PartQuantity) (l : List RepairPart)
    → find_part j (parts_with i q l)
      ≡ (if j == i then rewritten q (find_part j l) else find_part j l)
unfolding find_part parts_with
find_part-with i j q [] = ground arith
find_part-with i j q (a ∷ l) = ground (arith, find_part-with i j q l)

update_part_absent :
    (i : Uuid) (q : PartQuantity) (o : RepairOrder)
    → is_mutable o.status ≡ true
    → find_part i o.parts ≡ none
    → update_part i q o ≡ (err (part_not_found i), o)
unfolding update_part assert_mutable
update_part_absent i q o e f = ground (arith, update_first_absent i q o.parts f)

update_part_present :
    (i : Uuid) (q : PartQuantity) (o : RepairOrder) {a : RepairPart}
    → is_mutable o.status ≡ true
    → find_part i o.parts ≡ some a
    → update_part i q o ≡ (ok tt, record o { parts = parts_with i q o.parts })
unfolding update_part assert_mutable
update_part_present i q o {a} e f = ground (arith, update_first_present i q o.parts {a = a} f)

-- `update_part` on every branch: a closed order refuses it, an unknown id is reported, and both
-- leave the order unchanged; otherwise the id finds the part that it found before with the new
-- quantity, and every other id finds what it found before.
update_part_lem :
    (i : Uuid) (q : PartQuantity) (o : RepairOrder)
    → ((is_mutable o.status ≡ false)
        × (update_part i q o ≡ (err (invalid_state o.id o.status op_update_part), o)))
      ⊎ ((is_mutable o.status ≡ true)
          × (find_part i o.parts ≡ none)
          × (update_part i q o ≡ (err (part_not_found i), o)))
      ⊎ (((update_part i q o).0 ≡ ok tt)
          × ((j : Uuid)
              → find_part j (update_part i q o).1.parts
                ≡ (if j == i then rewritten q (find_part j o.parts) else find_part j o.parts)))
unfolding update_part assert_mutable
update_part_lem i q o = elim (Bool-cases (is_mutable o.status)) [
  | inr e ↦ inl (e, rw e refl)
  | inl e ↦ elim (Option-cases (find_part i o.parts)) [
    | inl f ↦ inr (inl (e, f, update_part_absent i q o e f))
    | inr (a, f) ↦
        inr (
          inr
            (rw (update_part_present i q o {a = a} e f) (refl, λ j. find_part-with i j q o.parts)))
  ]
]
