-- ===== src/Procurement/Examples.antt =====
-- Requisitions and orders whose methods are called: the theorems at concrete ones.
use fmms.Prelude.{◌≡◌, refl, inl, inr, true, false, none, some, List, [], ◌∷◌, is_some, pos}
use fmms.Procurement.Requisition
use fmms.Procurement.Requisition.{
  PurchaseRequisition, PrLineItem, PrStatus, PrStatus-discrete, settled_lines,
}
use fmms.Procurement.Order
use fmms.Procurement.Order.{PurchaseOrder, PoStatus-discrete, received_approved}

abbrev bolts : PrLineItem
bolts = record {
  id = 1;
  material_number = 66 ∷ [];
  quantity = record {
    value = record { negative = false; digits = 4; exponent = pos 0 };
    unit_of_measure = 69 ∷ 65 ∷ [];
  };
  description = 66 ∷ [];
  estimated_price = none;
}

abbrev requisition : PurchaseRequisition
requisition = record {
  id = 1;
  repair_order_id = 2;
  status = Requisition.approved;
  requested_by_id = 3;
  created_at = 10;
  updated_at = 10;
  line_items = bolts ∷ [];
  sap_pr_number = none;
  approved_by_id = some 4;
  material_request_id = none;
}

abbrev changes : List Requisition.Call
changes =
    Requisition.Call.transition Requisition.draft
    ∷ Requisition.Call.add bolts
    ∷ Requisition.Call.reject_it
    ∷ []

settled_lines_example : (Requisition.run changes requisition).line_items ≡ (bolts ∷ [])
settled_lines_example = settled_lines changes requisition (inl refl)

abbrev purchase : PurchaseOrder
purchase = record {
  id = 1;
  pr_id = 2;
  vendor_number = 49 ∷ [];
  status = Order.created;
  created_by_id = 3;
  created_at = 10;
  updated_at = 10;
  line_items = [];
  sap_po_number = none;
  approved_by_id = none;
}

abbrev receipts : List Order.Call
receipts =
    Order.Call.receive_all
    ∷ Order.Call.approve_by 5
    ∷ Order.Call.receive_part
    ∷ Order.Call.receive_all
    ∷ []

received_approved_example : is_some (Order.run receipts purchase).approved_by_id ≡ true
unfolding Order.run Order.apply Order.record_full_receipt Order.approve Order.record_partial_receipt
    Order.transition_to Order.allows PoStatus-discrete
received_approved_example =
    received_approved receipts purchase (refl, (refl, (refl, (refl, tt)))) refl (inr (inr refl))
