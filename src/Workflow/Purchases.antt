-- ===== src/Workflow/Purchases.antt =====
-- The requisitions of a purchase (apps/procurement/application/services:
-- create_purchase_requisition_service.py, add_pr_line_item_service.py, submit_pr_to_sap_service.py).
use fmms.Prelude.{
  Bool, true, false, Option, none, some, List, [], ◌∷◌, Uuid, DateTime, Text, Decimal, Result, ok,
  err, is, blank_to_none, Update, ◌>>=◌, ◌>>◌, pure, get, modify, raise, when,
}
use fmms.Procurement.Values.{
  ValueError, Money, material_number, quantity, money, sap_document_number,
}
use fmms.Procurement.Requisition
use fmms.Procurement.Requisition.{
  PurchaseRequisition, PrLineItem, PrError, PrStatus-discrete, draft,
}
use fmms.Workflow.Table.{Row, find, put}
use fmms.Workflow.Stored.{kept, kept_flag}
use fmms.Workflow.Database.{
  Database, Call, ServiceError, SapError, rejected, requisition_missing, requisition_error,
  purchase_value_error, estimated_price_incomplete, pr_without_lines, required, on, load_order,
}
use fmms.Workflow.Decision.{document_number}

-- What Python knows of the digits and the capitals of texts.
pub record Alphabet : Type 0 where
  pub digits : Text → Bool
  pub upper : Text → Text

abbrev pub requisition_id : PurchaseRequisition → Uuid
requisition_id r = r.id

-- The columns that `DjangoPurchaseRequisitionRepository.save` writes; the lines are deleted and
-- inserted anew.
unfoldable pub stored_requisition :
    DateTime → Option (Row PurchaseRequisition) → PurchaseRequisition → Row PurchaseRequisition
stored_requisition now old r = record {
  entity = record r {
    created_at = kept (λ (s : PurchaseRequisition). s.created_at) old r.created_at;
    updated_at = now;
    sap_pr_number = blank_to_none r.sap_pr_number;
  };
  is_deleted = kept_flag old;
}

unfoldable pub load_requisition : Uuid → Call PurchaseRequisition
load_requisition i = do
  db ← get
  required (requisition_missing i) (find requisition_id i db.requisitions)

unfoldable pub save_requisition : DateTime → PurchaseRequisition → Update Database ServiceError
save_requisition now r = modify (λ db. record db {
  requisitions = put requisition_id (stored_requisition now) r db.requisitions;
})

unfoldable pub new_requisition : Uuid → Uuid → Uuid → Option Uuid → DateTime → PurchaseRequisition
new_requisition fresh order user material now = record {
  id = fresh;
  repair_order_id = order;
  status = draft;
  requested_by_id = user;
  created_at = now;
  updated_at = now;
  line_items = [];
  sap_pr_number = none;
  approved_by_id = none;
  material_request_id = material;
}

-- `CreatePurchaseRequisitionService.execute`
unfoldable pub create_requisition :
    Uuid → Uuid → Uuid → Option Uuid → DateTime → Call PurchaseRequisition
unfolding new_requisition
create_requisition fresh order user material now = do
  load_order order
  save_requisition now (new_requisition fresh order user material now)
  pure (new_requisition fresh order user material now)

-- `AddPRLineItemDTO`, but for the requisition and the request, with the id that the line gets.
pub record LineData : Type 0 where
  pub line_id : Uuid
  pub material_number : Text
  pub quantity : Decimal
  pub unit_of_measure : Text
  pub description : Text
  pub estimated_amount : Option Decimal
  pub currency : Option Text

abbrev pub checked : {A : Type 0} → Result ValueError A → Call A
checked (ok a) = pure a
checked (err e) = raise (purchase_value_error e)

-- Both fields of a price, or none of them.
unfoldable pub estimated_price : Alphabet → Option Decimal → Option Text → Call (Option Money)
estimated_price x none none = pure none
estimated_price x (some a) (some c) = do m ← checked (money x.upper a c); pure (some m)
estimated_price x (some a) none = raise (rejected estimated_price_incomplete)
estimated_price x none (some c) = raise (rejected estimated_price_incomplete)

-- `requisition.updated_at = now`
abbrev pub touch_requisition : DateTime → Update PurchaseRequisition PrError
touch_requisition now = modify (λ r. record r { updated_at = now })

-- `AddPRLineItemService.execute`
unfoldable pub add_line : Alphabet → Uuid → LineData → DateTime → Call PurchaseRequisition
unfolding load_requisition estimated_price
add_line x i d now = do
  r ← load_requisition i
  price ← estimated_price x d.estimated_amount d.currency
  material ← checked (material_number x.digits d.material_number)
  amount ← checked (quantity d.quantity d.unit_of_measure)
  let line : PrLineItem = record {
    id = d.line_id;
    material_number = material;
    quantity = amount;
    description = d.description;
    estimated_price = price;
  }
  s ← on requisition_error (Requisition.add_line_item line >> touch_requisition now) r
  save_requisition now s
  pure s

abbrev pub no_lines : List PrLineItem → Bool
no_lines [] = true
no_lines (_ ∷ _) = false

-- `if pr.status.value == "DRAFT": pr.submit()`
unfoldable pub submit_draft : PurchaseRequisition → Update PurchaseRequisition PrError
submit_draft r = when (is PrStatus-discrete r.status draft) Requisition.submit

-- `SubmitPRToSAPService.execute`, with how the manager of SAP answers for the requisition.
unfoldable pub submit_to_sap :
    (PurchaseRequisition → Result SapError Text) → Uuid → DateTime → Call PurchaseRequisition
unfolding load_requisition submit_draft
submit_to_sap sap i now = do
  r ← load_requisition i
  when (no_lines r.line_items) (raise (rejected pr_without_lines))
  number ← document_number (sap r)
  n ← checked (sap_document_number number)
  s ← on requisition_error (Requisition.link_sap_pr n >> submit_draft r >> touch_requisition now) r
  save_requisition now s
  pure s
