-- ===== src/Workflow/Receipts.antt =====
-- The receipt of a purchase order from SAP
-- (apps/procurement/application/services/receive_po_from_sap_service.py).
use fmms.Prelude.{
  Bool, true, false, Option, none, some, List, [], ◌∷◌, ◌==◌, Uuid, DateTime, Text, Decimal, pos,
  blank_to_none, Update, ◌>>=◌, ◌>>◌, pure, get, modify, raise, when,
}
use fmms.Procurement.Values.{material_number, quantity, money, vendor_number, sap_document_number}
use fmms.Procurement.Order
use fmms.Procurement.Order.{PurchaseOrder, PoLineItem}
use fmms.Workflow.Table.{Row, put, select}
use fmms.Workflow.Stored.{kept, kept_flag}
use fmms.Workflow.Database.{
  Database, Call, ServiceError, rejected, pr_not_in_sap, po_without_lines, po_exists,
}
use fmms.Workflow.Purchases.{Alphabet, load_requisition, checked}

abbrev pub purchase_order_id : PurchaseOrder → Uuid
purchase_order_id o = o.id

-- The columns that `DjangoPurchaseOrderRepository.save` writes; the lines are deleted and inserted
-- anew.
unfoldable pub stored_purchase_order :
    DateTime → Option (Row PurchaseOrder) → PurchaseOrder → Row PurchaseOrder
stored_purchase_order now old o = record {
  entity = record o {
    created_at = kept (λ (p : PurchaseOrder). p.created_at) old o.created_at;
    updated_at = now;
    sap_po_number = blank_to_none o.sap_po_number;
  };
  is_deleted = kept_flag old;
}

unfoldable pub save_purchase_order : DateTime → PurchaseOrder → Update Database ServiceError
save_purchase_order now o = modify (λ db. record db {
  purchase_orders = put purchase_order_id (stored_purchase_order now) o db.purchase_orders;
})

-- `list_by_pr`
unfoldable pub orders_of_requisition : Uuid → Call (List PurchaseOrder)
orders_of_requisition i = do
  db ← get
  pure (select (λ (o : PurchaseOrder). o.pr_id == i) db.purchase_orders)

-- `ReceivePOLineItemDTO`, with the id that the line gets.
pub record OrderLine : Type 0 where
  pub line_id : Uuid
  pub material_number : Text
  pub quantity : Decimal
  pub unit_of_measure : Text
  pub unit_price : Decimal
  pub currency : Text

-- `ReceivePOFromSAPDTO`, but for the request.
pub record OrderData : Type 0 where
  pub pr_id : Uuid
  pub sap_po_number : Text
  pub vendor_number : Text
  pub line_items : List OrderLine
  pub created_by : Uuid

abbrev pub zero_quantity : Decimal
zero_quantity = record { negative = false; digits = 0; exponent = pos 0 }

-- `POLineItem(...)` with its value objects.
unfoldable pub order_line : Alphabet → OrderLine → Call PoLineItem
order_line x l = do
  material ← checked (material_number x.digits l.material_number)
  amount ← checked (quantity l.quantity l.unit_of_measure)
  price ← checked (money x.upper l.unit_price l.currency)
  pure record {
    id = l.line_id;
    material_number = material;
    quantity = amount;
    unit_price = price;
    received_quantity = zero_quantity;
  }

unfoldable pub order_lines : Alphabet → List OrderLine → Call (List PoLineItem)
unfolding order_line
order_lines x [] = pure []
order_lines x (l ∷ ls) = do item ← order_line x l; items ← order_lines x ls; pure (item ∷ items)

-- `if existing: raise ...`
unfoldable pub refuse_existing : List PurchaseOrder → Update Database ServiceError
refuse_existing [] = pure tt
refuse_existing (o ∷ _) = raise (rejected (po_exists o.id))

abbrev pub is_missing : Option Text → Bool
is_missing none = true
is_missing (some _) = false

abbrev pub no_order_lines : List OrderLine → Bool
no_order_lines [] = true
no_order_lines (_ ∷ _) = false

unfoldable pub new_purchase_order :
    Uuid → OrderData → Text → Text → List PoLineItem → DateTime → PurchaseOrder
new_purchase_order fresh d vendor number items now = record {
  id = fresh;
  pr_id = d.pr_id;
  vendor_number = vendor;
  status = Order.created;
  created_by_id = d.created_by;
  created_at = now;
  updated_at = now;
  line_items = items;
  sap_po_number = some number;
  approved_by_id = none;
}

-- `ReceivePOFromSAPService.execute`; `fresh` is the id of the order.
unfoldable pub receive_purchase_order : Alphabet → Uuid → OrderData → DateTime → Call PurchaseOrder
unfolding orders_of_requisition refuse_existing order_lines new_purchase_order
receive_purchase_order x fresh d now = do
  r ← load_requisition d.pr_id
  when (is_missing r.sap_pr_number) (raise (rejected pr_not_in_sap))
  existing ← orders_of_requisition d.pr_id
  refuse_existing existing
  when (no_order_lines d.line_items) (raise (rejected po_without_lines))
  vendor ← checked (vendor_number d.vendor_number)
  number ← checked (sap_document_number d.sap_po_number)
  items ← order_lines x d.line_items
  save_purchase_order now (new_purchase_order fresh d vendor number items now)
  pure (new_purchase_order fresh d vendor number items now)
