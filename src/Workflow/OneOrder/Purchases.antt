-- ===== src/Workflow/OneOrder/Purchases.antt =====
-- The decision on parts and the requisitions leave the repair orders alone.
use fmms.Prelude.{
  refl, Bool, Option, none, some, List, [], ◌∷◌, Uuid, DateTime, Text, Decimal, Result, ok, err,
  Post,
}
use fmms.Material.{
  MaterialRequest, MaterialRequestItem, MaterialItemDecision, from_stock, purchase, pending,
}
use fmms.Procurement.Values.{ValueError}
use fmms.Procurement.Requisition.{PurchaseRequisition}
use fmms.Workflow.Database.{Database, ServiceError, SapError, load_order}
use fmms.Workflow.Rules.{OneOrder, Quiet, Keeps, Quiet-pure, Quiet-raise, Quiet-bind, Quiet-Keeps}
use fmms.Workflow.Quiet.{quiet_rules}
use fmms.Workflow.Purchases.{
  Alphabet, LineData, load_requisition, save_requisition, create_requisition, checked,
  estimated_price, add_line, submit_to_sap,
}
use fmms.Workflow.Parts.{
  CentralStock, ItemDecision, PartsDecision, validate_decisions, check_stock, decided, decide_item,
  decide_items, create_issue, issue_when, line_caught, add_lines, create_lines, record_status,
  conclude, decide_parts, issue_parts,
}
use fmms.Procurement.Order.{PurchaseOrder}
use fmms.Workflow.Receipts.{
  OrderLine, OrderData, save_purchase_order, orders_of_requisition, order_line, order_lines,
  refuse_existing, receive_purchase_order,
}
use fmms.Workflow.OneOrder.Decision.{Quiet-document_number}
use fmms.Workflow.OneOrder.Closing.{Quiet-save_material, Quiet-load_material}

Quiet-load_requisition : (i : Uuid) → Quiet (load_requisition i)
unfolding load_requisition
Quiet-load_requisition i = search quiet_rules

Quiet-save_requisition : (now : DateTime) (r : PurchaseRequisition) → Quiet (save_requisition now r)
unfolding save_requisition
Quiet-save_requisition now r = record { at = λ db. refl }

Quiet-load_order : (i : Uuid) → Quiet (load_order i)
unfolding load_order
Quiet-load_order i = search quiet_rules

Quiet-checked : {A : Type 0} (r : Result ValueError A) → Quiet (checked r)
Quiet-checked (ok a) = Quiet-pure a
Quiet-checked (err e) = Quiet-raise _

Quiet-price : (x : Alphabet) (a : Option Decimal) (c : Option Text) → Quiet (estimated_price x a c)
unfolding estimated_price
Quiet-price x none none = Quiet-pure none
Quiet-price x (some a) (some c) = search (quiet_rules, Quiet-checked)
Quiet-price x (some a) none = Quiet-raise _
Quiet-price x none (some c) = Quiet-raise _

Quiet-create :
    (fresh order user : Uuid) (material : Option Uuid) (now : DateTime)
    → Quiet (create_requisition fresh order user material now)
unfolding create_requisition
Quiet-create fresh order user material now =
    search (quiet_rules, Quiet-load_order, Quiet-save_requisition)

pub create_requisition-Keeps :
    (fresh order user : Uuid) (material : Option Uuid) (now : DateTime)
    → Keeps OneOrder (create_requisition fresh order user material now)
create_requisition-Keeps fresh order user material now =
    Quiet-Keeps (Quiet-create fresh order user material now)

Quiet-add_line :
    (x : Alphabet) (i : Uuid) (d : LineData) (now : DateTime) → Quiet (add_line x i d now)
unfolding add_line
Quiet-add_line x i d now =
    search (quiet_rules, Quiet-load_requisition, Quiet-price, Quiet-checked, Quiet-save_requisition)
      depth 14 fits 9000

pub add_line-Keeps :
    (x : Alphabet) (i : Uuid) (d : LineData) (now : DateTime) → Keeps OneOrder (add_line x i d now)
add_line-Keeps x i d now = Quiet-Keeps (Quiet-add_line x i d now)

pub submit_to_sap-Keeps :
    (sap : PurchaseRequisition → Result SapError Text) (i : Uuid) (now : DateTime)
    → Keeps OneOrder (submit_to_sap sap i now)
unfolding submit_to_sap
submit_to_sap-Keeps sap i now = Quiet-Keeps (
    search
      (
        quiet_rules, Quiet-load_requisition, Quiet-document_number, Quiet-checked,
        Quiet-save_requisition,
      )
      depth 14 fits 9000)

Quiet-check_stock :
    (x : CentralStock) (b : Bool) (i : MaterialRequestItem) → Quiet (check_stock x b i)
unfolding check_stock
Quiet-check_stock x b i = search quiet_rules

Quiet-decided :
    (x : CentralStock) (b : Bool) (i : MaterialRequestItem) (d : MaterialItemDecision)
    → Quiet (decided x b i d)
unfolding decided
Quiet-decided x b i from_stock = search (quiet_rules, Quiet-check_stock)
Quiet-decided x b i purchase = Quiet-pure _
Quiet-decided x b i pending = Quiet-pure _

Quiet-decide_item :
    (x : CentralStock) (b : Bool) (i : MaterialRequestItem) (d : Option MaterialItemDecision)
    → Quiet (decide_item x b i d)
unfolding decide_item
Quiet-decide_item x b i none = Quiet-raise _
Quiet-decide_item x b i (some d) = Quiet-decided x b i d

Quiet-decide_items :
    (x : CentralStock) (b : Bool) (ds : List ItemDecision) (l : List MaterialRequestItem)
    → Quiet (decide_items x b ds l)
unfolding decide_items
Quiet-decide_items x b ds [] = Quiet-pure []
Quiet-decide_items x b ds (i ∷ l) =
    Quiet-bind (Quiet-decide_item x b i _)
      λ j. Quiet-bind (Quiet-decide_items x b ds l) λ rest. Quiet-pure _

Quiet-validate :
    (l : List MaterialRequestItem) (ds : List ItemDecision) → Quiet (validate_decisions l ds)
unfolding validate_decisions
Quiet-validate l ds = search quiet_rules

Quiet-create_issue : (i : Uuid) → Quiet (create_issue i)
unfolding create_issue
Quiet-create_issue i = record { at = λ db. refl }

Quiet-issue_when : (l : List MaterialRequestItem) (i : Uuid) → Quiet (issue_when l i)
Quiet-issue_when [] i = Quiet-pure tt
Quiet-issue_when (_ ∷ _) i = Quiet-create_issue i

-- Whatever comes of a line, the orders are those after it.
line_caught-Post :
    {A : Type 0} (P : Database → Type 0) (x : Result ServiceError A × Database)
    → Post P (λ _. P) x
    → Post P (λ _. P) (line_caught x)
unfolding line_caught
line_caught-Post P (ok a, d) h = h
line_caught-Post P (err e, d) h = h

Quiet-add_lines :
    (x : Alphabet) (id_of : Uuid → Uuid) (pr : Uuid) (now : DateTime) (l : List MaterialRequestItem)
    → Quiet (add_lines x id_of pr now l)
unfolding add_lines
Quiet-add_lines x id_of pr now [] = Quiet-pure tt
Quiet-add_lines x id_of pr now (i ∷ l) =
    Quiet-bind
      (record {
        at = λ db. line_caught-Post _ (add_line x pr _ now db) ((Quiet-add_line x pr _ now).at db);
      })
      λ _. Quiet-add_lines x id_of pr now l

Quiet-create_lines :
    (x : Alphabet) (id_of : Uuid → Uuid) (fresh : Uuid) (r : MaterialRequest) (user : Uuid)
    (now : DateTime) (l : List MaterialRequestItem)
    → Quiet (create_lines x id_of fresh r user now l)
unfolding create_lines
Quiet-create_lines x id_of fresh r user now [] = Quiet-pure tt
Quiet-create_lines x id_of fresh r user now (i ∷ l) =
    Quiet-bind (Quiet-create _ _ _ _ _) λ _. Quiet-add_lines x id_of fresh now (i ∷ l)

pub decide_parts-Keeps :
    (stock : CentralStock) (x : Alphabet) (id_of : Uuid → Uuid) (fresh : Uuid) (d : PartsDecision)
    (now : DateTime)
    → Keeps OneOrder (decide_parts stock x id_of fresh d now)
unfolding decide_parts conclude record_status
decide_parts-Keeps stock x id_of fresh d now = Quiet-Keeps (
    search
      (
        quiet_rules, Quiet-load_material, Quiet-validate, Quiet-decide_items, Quiet-save_material,
        Quiet-issue_when, Quiet-create_lines,
      )
      depth 18 fits 9000)

pub issue_parts-Keeps : (i user : Uuid) (now : DateTime) → Keeps OneOrder (issue_parts i user now)
unfolding issue_parts
issue_parts-Keeps i user now = Quiet-Keeps (
    search (quiet_rules, Quiet-load_material, Quiet-save_material, Quiet-create_issue) depth 16 fits
      9000)

Quiet-orders_of : (i : Uuid) → Quiet (orders_of_requisition i)
unfolding orders_of_requisition
Quiet-orders_of i = search quiet_rules

Quiet-refuse : (l : List PurchaseOrder) → Quiet (refuse_existing l)
unfolding refuse_existing
Quiet-refuse [] = Quiet-pure tt
Quiet-refuse (o ∷ l) = Quiet-raise _

Quiet-order_line : (x : Alphabet) (l : OrderLine) → Quiet (order_line x l)
unfolding order_line
Quiet-order_line x l = search (quiet_rules, Quiet-checked) depth 14

Quiet-order_lines : (x : Alphabet) (l : List OrderLine) → Quiet (order_lines x l)
unfolding order_lines
Quiet-order_lines x [] = Quiet-pure []
Quiet-order_lines x (l ∷ ls) =
    Quiet-bind (Quiet-order_line x l) λ i. Quiet-bind (Quiet-order_lines x ls) λ items. Quiet-pure _

Quiet-save_purchase_order : (now : DateTime) (o : PurchaseOrder) → Quiet (save_purchase_order now o)
unfolding save_purchase_order
Quiet-save_purchase_order now o = record { at = λ db. refl }

pub receive_order-Keeps :
    (x : Alphabet) (fresh : Uuid) (d : OrderData) (now : DateTime)
    → Keeps OneOrder (receive_purchase_order x fresh d now)
unfolding receive_purchase_order
receive_order-Keeps x fresh d now = Quiet-Keeps (
    search
      (
        quiet_rules, Quiet-load_requisition, Quiet-orders_of, Quiet-refuse, Quiet-checked,
        Quiet-order_lines, Quiet-save_purchase_order,
      )
      depth 18 fits 9000)
