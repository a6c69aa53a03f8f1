-- ===== src/Workflow/Invoices.antt =====
-- The invoice of an external repair
-- (apps/repair/application/services/external_invoice_service.py).
use fmms.Prelude.{
  not, Option, some, [], ◌∷◌, Uuid, DateTime, Text, Decimal, Update, ◌>>=◌, ◌>>◌, pure, get, modify,
  raise, when,
}
use fmms.Repair.Status.{external, waiting_transport_final_approval, waiting_external_admin_review}
use fmms.Repair.Order
use fmms.Repair.Order.{RepairOrder, workshop_is, status_in}
use fmms.Repair.Costs
use fmms.Repair.Costs.{ExternalRepairInvoice, InvoiceError, uploaded}
use fmms.Repair.Event.{invoice_uploaded, invoice_approved, external_invoice_approved}
use fmms.Workflow.Table.{find}
use fmms.Workflow.Database.{
  Database, Call, ServiceError, Code, rejected, invoice_missing, invoice_requires_external_repair,
  invoice_requires_driver_confirmation, invoice_approval_requires_external_repair,
  invoice_approval_invalid_repair_state, invoice_error, required, on, invoice_id, load_order,
  save_invoice, record_event,
}
use fmms.Workflow.Steps.{change_order, or_now, close_fault_for_completed_repair}

-- `_assert_external_invoice_upload_allowed` and `_assert_external_invoice_approval_allowed`, which
-- differ in their codes.
unfoldable pub assert_invoice_allowed : Code → Code → RepairOrder → Update Database ServiceError
assert_invoice_allowed no_external wrong_state o = do
  when (not (workshop_is external o.workshop_type)) (raise (rejected no_external))
  when (not (status_in (waiting_transport_final_approval ∷ waiting_external_admin_review ∷ []) o))
      (raise (rejected wrong_state))

-- `UploadExternalInvoiceDTO`, but for the order, the user and the request.
pub record InvoiceData : Type 0 where
  pub amount : Decimal
  pub currency : Text
  pub vendor_id : Option Text
  pub document : Option Text

unfoldable pub new_invoice : Uuid → Uuid → InvoiceData → Uuid → DateTime → ExternalRepairInvoice
new_invoice fresh order d user now = record {
  id = fresh;
  repair_order_id = order;
  amount = d.amount;
  currency = d.currency;
  status = uploaded;
  created_by_id = user;
  created_at = now;
  updated_at = now;
  vendor_id = d.vendor_id;
  document = d.document;
}

-- `UploadExternalInvoiceService.execute`
unfoldable pub upload_invoice :
    Uuid → Uuid → InvoiceData → Uuid → DateTime → Call ExternalRepairInvoice
unfolding assert_invoice_allowed new_invoice
upload_invoice fresh i d user now = do
  o ← load_order i
  assert_invoice_allowed invoice_requires_external_repair invoice_requires_driver_confirmation o
  save_invoice now (new_invoice fresh i d user now)
  record_event i invoice_uploaded (some user) now
  pure (new_invoice fresh i d user now)

unfoldable pub load_invoice : Uuid → Call ExternalRepairInvoice
load_invoice i = do db ← get; required (invoice_missing i) (find invoice_id i db.invoices)

-- `invoice.updated_at = now`
abbrev pub touch_invoice : DateTime → Update ExternalRepairInvoice InvoiceError
touch_invoice now = modify (λ i. record i { updated_at = now })

-- `ApproveExternalInvoiceService.execute`
unfoldable pub approve_invoice : Uuid → Uuid → DateTime → Call ExternalRepairInvoice
unfolding load_invoice assert_invoice_allowed
approve_invoice i user now = do
  invoice ← load_invoice i
  o ← load_order invoice.repair_order_id
  assert_invoice_allowed invoice_approval_requires_external_repair
      invoice_approval_invalid_repair_state o
  saved ← on invoice_error (Costs.approve >> touch_invoice now) invoice
  save_invoice now saved
  p ← change_order (Order.complete_after_transport_handover (or_now o.completed_at now)) now o
  close_fault_for_completed_repair now p.fault_id
  record_event saved.repair_order_id invoice_approved (some user) now
  record_event saved.repair_order_id external_invoice_approved (some user) now
  pure saved
