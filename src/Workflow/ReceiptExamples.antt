-- ===== src/Workflow/ReceiptExamples.antt =====
-- The theorem on receipts at a small database, and runs of the receipt of a purchase order: before
-- the requisition is known to SAP, once, and once more.
use fmms.Prelude.{
  ◌≡◌, refl, List, [], ◌∷◌, false, Option, none, some, ok, err, Text, codes, strip, keep, lstrip,
  rstrip, is_space, ℕ_discrete, arith,
}
use fmms.Prelude.Decimals.{decimal_pos, decimal_ltb, scaled, signed_ltb}
use fmms.Procurement.Requisition
use fmms.Procurement.Requisition.{PurchaseRequisition}
use fmms.Procurement.Order
use fmms.Procurement.Order.{PurchaseOrder}
use fmms.Procurement.Values.{
  material_number, quantity, money, vendor_number, sap_document_number, is_currency,
}
use fmms.Workflow.OneReceipt.{OneReceipt, Receipt, receive_all, receive_all-OneReceipt}
use fmms.Workflow.Table.{count, put, select, row_of}
use fmms.Workflow.Database.{Database, rejected, pr_not_in_sap, po_without_lines, po_exists}
use fmms.Workflow.Purchases.{Alphabet, load_requisition}
use fmms.Workflow.Receipts.{
  OrderData, OrderLine, receive_purchase_order, orders_of_requisition, refuse_existing, order_lines,
  order_line, new_purchase_order, save_purchase_order, stored_purchase_order, zero_quantity,
}
use fmms.Workflow.Samples.{waiting, five, all_digits, is_number}

abbrev letters : Alphabet
letters = record { digits = is_number; upper = λ (t : Text). t }

abbrev requisition : Option Text → PurchaseRequisition
requisition number = record {
  id = 50;
  repair_order_id = 6;
  status = Requisition.submitted;
  requested_by_id = 4;
  created_at = 100;
  updated_at = 100;
  line_items = [];
  sap_pr_number = number;
  approved_by_id = none;
  material_request_id = none;
}

abbrev submitted : Option Text → Database
submitted number = record waiting {
  requisitions = record { entity = requisition number; is_deleted = false } ∷ [];
}

abbrev bolts : OrderLine
bolts = record {
  line_id = 61;
  material_number = codes "4711";
  quantity = five;
  unit_of_measure = codes "EA";
  unit_price = five;
  currency = codes "EUR";
}

abbrev receipt : List OrderLine → OrderData
receipt lines = record {
  pr_id = 50;
  sap_po_number = codes "4500000001";
  vendor_number = codes "1000";
  line_items = lines;
  created_by = 4;
}

not_submitted :
    receive_purchase_order letters 60 (receipt (bolts ∷ [])) 200 (submitted none)
    ≡ (err (rejected pr_not_in_sap), submitted none)
unfolding receive_purchase_order load_requisition row_of
not_submitted = refl

without_lines :
    receive_purchase_order letters 60 (receipt []) 200 (submitted (some (codes "10")))
    ≡ (err (rejected po_without_lines), submitted (some (codes "10")))
unfolding receive_purchase_order load_requisition orders_of_requisition refuse_existing row_of
    select
without_lines = refl

abbrev ordered : PurchaseOrder
ordered = record {
  id = 60;
  pr_id = 50;
  vendor_number = codes "1000";
  status = Order.created;
  created_by_id = 4;
  created_at = 200;
  updated_at = 200;
  line_items =
      record {
        id = 61;
        material_number = codes "4711";
        quantity = record { value = five; unit_of_measure = codes "EA" };
        unit_price = record { amount = five; currency = codes "EUR" };
        received_quantity = zero_quantity;
      }
      ∷ [];
  sap_po_number = some (codes "4500000001");
  approved_by_id = none;
}

abbrev stocked : Database
stocked = record (submitted (some (codes "10"))) {
  purchase_orders = record { entity = ordered; is_deleted = false } ∷ [];
}

received_once :
    receive_purchase_order letters 60 (receipt (bolts ∷ [])) 200 (submitted (some (codes "10")))
    ≡ (ok ordered, stocked)
unfolding receive_purchase_order load_requisition orders_of_requisition refuse_existing order_lines
    order_line new_purchase_order save_purchase_order stored_purchase_order put material_number
    quantity money vendor_number sap_document_number strip keep lstrip rstrip is_space is_currency
    all_digits decimal_pos decimal_ltb scaled signed_ltb ℕ_discrete row_of select
received_once = refl

received_again :
    receive_purchase_order letters 62 (receipt (bolts ∷ [])) 300 stocked
    ≡ (err (rejected (po_exists 60)), stocked)
unfolding receive_purchase_order load_requisition orders_of_requisition refuse_existing row_of
    select
received_again = refl

stocked-OneReceipt : OneReceipt stocked.purchase_orders
unfolding OneReceipt count
stocked-OneReceipt i = ground arith

abbrev again : List Receipt
again =
    record { fresh = 62; order = receipt (bolts ∷ []); received_at = 300 }
    ∷ record { fresh = 63; order = receipt []; received_at = 400 }
    ∷ []

receive_all-OneReceipt_example : OneReceipt (receive_all letters again stocked).purchase_orders
receive_all-OneReceipt_example = receive_all-OneReceipt letters again stocked stocked-OneReceipt
