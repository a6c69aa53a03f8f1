-- ===== src/Workflow/Advance.antt =====
-- What the save of one repair order does to the number of open orders of a fault.
use fmms.Prelude.{
  ◌≡◌, ◌≤◌, ◌+◌, ap, refl, true, false, Option, some, List, ◌==◌, Uuid, DateTime, Result, ok, err,
  Update, ◌>>◌, pure, resume, Post, arith, Bool-cases, Option-cases, inl, inr,
}
use fmms.Repair.Status.{is_terminal}
use fmms.Repair.Order.{RepairOrder, RepairError}
use fmms.Repair.Identity.{SameKeys}
use fmms.Workflow.Table.{Row, count, tally, row_of, put, count-put_old, count-put_new}
use fmms.Workflow.Stored.{stored_order}
use fmms.Workflow.Database.{Database, held, repair_error, order_id, save_order}
use fmms.Workflow.Steps.{change_order, touch_order}
use fmms.Workflow.Rules.{OneOrder, is_unfinished, Loaded}

module _ (now : DateTime) (p : RepairOrder) where
  stored-id :
      (old : Option (Row RepairOrder)) → order_id (stored_order now old p).entity ≡ order_id p
  unfolding stored_order
  stored-id old = refl

  -- A write of an order that has ended adds none that has not.
  pub count-save_ended :
      (f : Uuid) (rows : List (Row RepairOrder))
      → is_terminal p.status ≡ true
      → count (is_unfinished f) (put order_id (stored_order now) p rows)
        ≤ count (is_unfinished f) rows
  unfolding stored_order
  count-save_ended f rows h = elim (Option-cases (row_of order_id p.id rows)) [
    | inl e ↦ ground (arith, count-put_new order_id (stored_order now) (is_unfinished f) p rows e)
    | inr (r, e) ↦
        ground (arith, count-put_old order_id (stored_order now) (is_unfinished f) p rows e)
  ]

  -- A write of an order whose row stood for it adds none.
  count-save_open :
      (f : Uuid) (rows : List (Row RepairOrder)) (o : RepairOrder) (r : Row RepairOrder)
      → row_of order_id p.id rows ≡ some r
      → r.is_deleted ≡ false
      → r.entity.fault_id ≡ o.fault_id
      → r.entity.status ≡ o.status
      → p.fault_id ≡ o.fault_id
      → is_terminal o.status ≡ false
      → count (is_unfinished f) (put order_id (stored_order now) p rows)
        ≤ count (is_unfinished f) rows
  unfolding stored_order
  count-save_open f rows o r e d e₂ e₃ k h = ground (
    arith,
    count-put_old order_id (stored_order now) (is_unfinished f) p rows e,
    e₂,
    ap is_terminal e₃,
  )

  -- A write adds one that has not ended at most, and none for another fault.
  pub count-save_any :
      (f : Uuid) (rows : List (Row RepairOrder))
      → count (is_unfinished f) (put order_id (stored_order now) p rows)
        ≤ count (is_unfinished f) rows + tally (p.fault_id == f)
  unfolding stored_order
  count-save_any f rows = elim (Option-cases (row_of order_id p.id rows)) [
    | inl e ↦ ground (arith, count-put_new order_id (stored_order now) (is_unfinished f) p rows e)
    | inr (r, e) ↦
        ground (arith, count-put_old order_id (stored_order now) (is_unfinished f) p rows e)
  ]

  -- The order that ends was the one that had not.
  count-save_last :
      (rows : List (Row RepairOrder)) (o : RepairOrder) (r : Row RepairOrder)
      → OneOrder rows
      → row_of order_id p.id rows ≡ some r
      → r.is_deleted ≡ false
      → r.entity.fault_id ≡ o.fault_id
      → r.entity.status ≡ o.status
      → p.fault_id ≡ o.fault_id
      → is_terminal o.status ≡ false
      → is_terminal p.status ≡ true
      → count (is_unfinished p.fault_id) (put order_id (stored_order now) p rows) ≡ 0
  unfolding stored_order OneOrder
  count-save_last rows o r one e d e₂ e₃ k h t = ground (
    arith,
    one p.fault_id,
    count-put_old order_id (stored_order now) (is_unfinished p.fault_id) p rows e,
    e₂,
    ap is_terminal e₃,
  )

-- A method that keeps the keys of an order and does not take it out of an end.
abbrev pub Advances : Update RepairOrder RepairError → Type 0
Advances m =
    (o p : RepairOrder)
    → m o ≡ (ok tt, p)
    → SameKeys o p × (is_terminal o.status ≡ true → is_terminal p.status ≡ true)

-- What is left when an order has been changed and saved: the rule, and no order of the fault that
-- has not ended if this one ended now.
abbrev pub Changed : RepairOrder → RepairOrder → List (Row RepairOrder) → Type 0
Changed o p rows =
    OneOrder rows
    × (p.fault_id ≡ o.fault_id)
    × (is_terminal o.status ≡ false
        → is_terminal p.status ≡ true
        → count (is_unfinished p.fault_id) rows ≡ 0)

saved_Changed :
    (now : DateTime) (o p : RepairOrder) (rows : List (Row RepairOrder))
    → SameKeys o p
    → (is_terminal o.status ≡ true → is_terminal p.status ≡ true)
    → Loaded o rows
    → Changed o p (put order_id (stored_order now) p rows)
unfolding OneOrder
saved_Changed now o p rows (i, f, v) t (one, (r, e, d, h, h₂)) =
    elim (Bool-cases (is_terminal o.status)) [
      | inl b ↦
          (λ g. omega (arith, one g, count-save_ended now p g rows (t b)), f, λ b₂. ground arith)
      | inr b ↦ (
        λ g. omega (arith, one g, count-save_open now p g rows o r (rw i e) d h h₂ f b),
        f,
        λ _ c. count-save_last now p rows o r one (rw i e) d h h₂ f b c,
      )
    ]

module _ (m : Update RepairOrder RepairError) (now : DateTime) (o : RepairOrder)
    (R : RepairOrder → Type 0) where
  pub change-Changed :
      Advances m
      → ((p : RepairOrder) → m o ≡ (ok tt, p) → R record p { updated_at = now })
      → (db : Database) → Loaded o db.orders
      → Post
          (λ (d : Database). OneOrder d.orders)
          (λ p (d : Database). Changed o p d.orders × R p)
          (change_order m now o db)
  unfolding change_order save_order
  change-Changed a q db l = go (m o) refl
    where
      go :
          (x : Result RepairError (Unit {0}) × RepairOrder)
          → m o ≡ x
          → Post
              (λ (d : Database). OneOrder d.orders)
              (λ p (d : Database). Changed o p d.orders × R p)
              (resume
                (λ p. save_order now p >> pure p)
                (held repair_error (resume (λ _. touch_order now) x) db))
      go (err e, p) h = l.0
      go (ok u, p) h =
          let (same, t) = a o p h in
          (saved_Changed now o record p { updated_at = now } db.orders same t l, q p h)
