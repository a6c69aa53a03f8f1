-- ===== src/Workflow/OneReceipt.antt =====
-- The receipt of purchase orders (receive_po_from_sap_service.py) and the rule of one order for each
-- requisition.
use fmms.Prelude.{
  ◌≡◌, ◌≤◌, ◌+◌, refl, Bool, not, ◌&&◌, List, [], ◌∷◌, ◌==◌, Uuid, DateTime, Result, ok, err, ◌>>=◌,
  ◌>>◌, pure, get, when, raise, Post, Bool-cases, Option, none, some, Option-cases, inl, inr, arith,
}
use fmms.Procurement.Values.{ValueError, vendor_number, sap_document_number}
use fmms.Procurement.Order.{PurchaseOrder}
use fmms.Workflow.Table.{Row, count, tally, row_of, put, select, count-put_old, count-put_new}
use fmms.Workflow.Database.{
  Database, ServiceError, Call, required, rejected, po_without_lines, pr_not_in_sap,
}
use fmms.Workflow.Purchases.{Alphabet, load_requisition, checked}
use fmms.Workflow.Receipts.{
  OrderData, OrderLine, purchase_order_id, stored_purchase_order, save_purchase_order,
  orders_of_requisition, refuse_existing, order_line, order_lines, new_purchase_order,
  receive_purchase_order, no_order_lines, is_missing,
}
use fmms.Workflow.Frame.{
  Still, Holds, Still-pure, Still-raise, Still-if, Still-bind, Still-when, Still-then,
}

-- A row that stands for an order of the requisition.
abbrev pub is_receipt : Uuid → Row PurchaseOrder → Bool
is_receipt i r = (r.entity.pr_id == i) && not r.is_deleted

-- Each requisition has one such order at most.
unfoldable pub OneReceipt : List (Row PurchaseOrder) → Type 0
OneReceipt rows = (i : Uuid) → count (is_receipt i) rows ≤ 1

-- `ReceivePOFromSAPService.execute` for one order after another, each with its id and its time. A
-- receipt that raises does not stop the next one.
pub record Receipt : Type 0 where
  pub fresh : Uuid
  pub order : OrderData
  pub received_at : DateTime

unfoldable pub receive_all : Alphabet → List Receipt → Database → Database
receive_all x [] db = db
receive_all x (r ∷ rs) db =
    receive_all x rs (receive_purchase_order x r.fresh r.order r.received_at db).1

abbrev receipts_of : Database → List (Row PurchaseOrder)
receipts_of db = db.purchase_orders

abbrev Quiet : {A : Type 0} → Call A → Type 0
Quiet m = Still receipts_of m

abbrev Keeps : {A : Type 0} → (List (Row PurchaseOrder) → Type 0) → Call A → Type 0
Keeps P m = Holds receipts_of OneReceipt P m

-- The rule holds, and the requisition has no such order.
abbrev Unordered : Uuid → List (Row PurchaseOrder) → Type 0
Unordered i rows = OneReceipt rows × (count (is_receipt i) rows ≡ 0)

none_selected :
    (i : Uuid) (rows : List (Row PurchaseOrder))
    → select (λ (o : PurchaseOrder). o.pr_id == i) rows ≡ []
    → count (is_receipt i) rows ≡ 0
unfolding select count
none_selected i [] h = refl
none_selected i (r ∷ rows) h = ground (arith, none_selected i rows)

-- A save adds one order at most, and none for another requisition.
count-save :
    (now : DateTime) (o : PurchaseOrder) (i : Uuid) (rows : List (Row PurchaseOrder))
    → count (is_receipt i) (put purchase_order_id (stored_purchase_order now) o rows)
      ≤ count (is_receipt i) rows + tally (o.pr_id == i)
unfolding stored_purchase_order
count-save now o i rows = elim (Option-cases (row_of purchase_order_id o.id rows)) [
  | inl e ↦
      ground
        (arith, count-put_new purchase_order_id (stored_purchase_order now) (is_receipt i) o rows e)
  | inr (r, e) ↦
      ground
        (arith, count-put_old purchase_order_id (stored_purchase_order now) (is_receipt i) o rows e)
]

saved-OneReceipt :
    (now : DateTime) (o : PurchaseOrder) (rows : List (Row PurchaseOrder))
    → Unordered o.pr_id rows
    → OneReceipt (put purchase_order_id (stored_purchase_order now) o rows)
unfolding OneReceipt
saved-OneReceipt now o rows (one, idle) i = elim (Bool-cases (o.pr_id == i)) [
  | inl e ↦ ground (arith, idle, count-save now o i rows)
  | inr e ↦ ground (arith, one i, count-save now o i rows)
]

Quiet-get : Quiet get
Quiet-get = record { at = λ s. refl }

Quiet-required : {A : Type 0} (e : ServiceError) (x : Option A) → Quiet (required e x)
Quiet-required e none = Still-raise e
Quiet-required e (some a) = Still-pure a

Quiet-checked : {A : Type 0} (r : Result ValueError A) → Quiet (checked r)
Quiet-checked (ok a) = Still-pure a
Quiet-checked (err e) = Still-raise _

ruleset receipt_rules = (
  Still-pure, Still-raise, Still-if, Still-when, Still-bind, Quiet-get, Quiet-required,
  Quiet-checked,
)

Quiet-load : (i : Uuid) → Quiet (load_requisition i)
unfolding load_requisition
Quiet-load i = search receipt_rules

Quiet-line : (x : Alphabet) (l : OrderLine) → Quiet (order_line x l)
unfolding order_line
Quiet-line x l = search receipt_rules depth 14

Quiet-lines : (x : Alphabet) (l : List OrderLine) → Quiet (order_lines x l)
unfolding order_lines
Quiet-lines x [] = Still-pure []
Quiet-lines x (l ∷ ls) =
    Still-bind (Quiet-line x l) λ i. Still-bind (Quiet-lines x ls) λ items. Still-pure _

refused :
    {A : Type 0} (i : Uuid) {k : Unit {0} → Call A}
    → ((u : Unit {0}) → Keeps (Unordered i) (k u))
    → (db : Database) → OneReceipt db.purchase_orders
    → (l : List PurchaseOrder) → select (λ (o : PurchaseOrder). o.pr_id == i) db.purchase_orders ≡ l
    → Post
        (λ (d : Database). OneReceipt d.purchase_orders)
        (λ _ (d : Database). OneReceipt d.purchase_orders)
        ((refuse_existing l >>= k) db)
unfolding refuse_existing
refused i q db one [] e = (q tt).at db one (one, none_selected i db.purchase_orders e)
refused i q db one (o ∷ l) e = one

-- Where the check passes, the requisition has no order.
Keeps-refuse :
    {A : Type 0} (i : Uuid) {k : Unit {0} → Call A}
    → ((u : Unit {0}) → Keeps (Unordered i) (k u))
    → Keeps OneReceipt (orders_of_requisition i >>= λ l. refuse_existing l >>= k)
unfolding orders_of_requisition
Keeps-refuse i q = record { at = λ db one _. refused i q db one _ refl }

Keeps-save :
    (now : DateTime) (o : PurchaseOrder)
    → Keeps (Unordered o.pr_id) (save_purchase_order now o >> pure o)
unfolding save_purchase_order
Keeps-save now o = record { at = λ db one h. saved-OneReceipt now o db.purchase_orders h }

-- What the receipt does once the requisition is found to have no order.
abbrev build_order : Alphabet → Uuid → OrderData → DateTime → Call PurchaseOrder
build_order x fresh d now = do
  when (no_order_lines d.line_items) (raise (rejected po_without_lines))
  vendor ← checked (vendor_number d.vendor_number)
  number ← checked (sap_document_number d.sap_po_number)
  items ← order_lines x d.line_items
  save_purchase_order now (new_purchase_order fresh d vendor number items now)
  pure (new_purchase_order fresh d vendor number items now)

build-Keeps :
    (x : Alphabet) (fresh : Uuid) (d : OrderData) (now : DateTime)
    → Keeps (Unordered d.pr_id) (build_order x fresh d now)
unfolding new_purchase_order
build-Keeps x fresh d now =
    Still-then
      (Still-when (no_order_lines d.line_items) _ (Still-raise (rejected po_without_lines)))
      λ _. Still-then (Quiet-checked (vendor_number d.vendor_number)) λ vendor.
        Still-then (Quiet-checked (sap_document_number d.sap_po_number)) λ number.
          Still-then (Quiet-lines x d.line_items)
            λ items. Keeps-save now (new_purchase_order fresh d vendor number items now)

receive-Keeps :
    (x : Alphabet) (fresh : Uuid) (d : OrderData) (now : DateTime)
    → Keeps OneReceipt (receive_purchase_order x fresh d now)
unfolding receive_purchase_order
receive-Keeps x fresh d now = Still-then (Quiet-load d.pr_id) λ r.
    Still-then (Still-when (is_missing r.sap_pr_number) _ (Still-raise (rejected pr_not_in_sap)))
      λ _. Keeps-refuse d.pr_id {k = λ _. build_order x fresh d now} λ _. build-Keeps x fresh d now

left-OneReceipt :
    {A : Type 0} (x : Result ServiceError A × Database)
    → Post
        (λ (d : Database). OneReceipt d.purchase_orders)
        (λ _ (d : Database). OneReceipt d.purchase_orders)
        x
    → OneReceipt x.1.purchase_orders
left-OneReceipt (ok a, d) h = h
left-OneReceipt (err e, d) h = h

-- Where each requisition has one purchase order at most, deleted rows aside, it has one at most
-- after any receipts from SAP in a row, whether they return or raise and whichever ids the orders
-- get.
pub receive_all-OneReceipt :
    (x : Alphabet) (rs : List Receipt) (db : Database)
    → OneReceipt db.purchase_orders
    → OneReceipt (receive_all x rs db).purchase_orders
unfolding receive_all
receive_all-OneReceipt x [] db one = one
receive_all-OneReceipt x (r ∷ rs) db one =
    receive_all-OneReceipt x rs (receive_purchase_order x r.fresh r.order r.received_at db).1 (
      left-OneReceipt (receive_purchase_order x r.fresh r.order r.received_at db)
        ((receive-Keeps x r.fresh r.order r.received_at).at db one one))
