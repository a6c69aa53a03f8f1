-- ===== src/Repair/Costs.antt =====
-- The financial documents of a repair: `InternalRepairCost`
-- (apps/repair/domain/internal_cost_entities.py) and `ExternalRepairInvoice`
-- (apps/repair/domain/invoice_entities.py). The sum `total_cost` rests on the arithmetic of
-- `decimal` and is left out; the amount of an invoice, a `float`, is held as the decimal it came from.
use fmms.Prelude.{
  not, Option, Uuid, DateTime, Text, Decimal, is, Update, ◌>>=◌, ◌>>◌, get, modify, raise, when,
}

pub data InternalRepairCostStatus : Type 0 where
  draft registered : InternalRepairCostStatus

unfoldable pub InternalRepairCostStatus-discrete : Discrete InternalRepairCostStatus
InternalRepairCostStatus-discrete = hlevel

pub record InternalRepairCost : Type 0 where
  pub id : Uuid
  pub repair_order_id : Uuid
  pub invoice_number : Text
  pub labor_cost : Decimal
  pub parts_cost : Decimal
  pub service_cost : Decimal
  pub currency : Text
  pub status : InternalRepairCostStatus
  pub notes : Text
  pub registered_by_id : Uuid
  pub created_at : DateTime
  pub updated_at : DateTime

unfoldable pub register : InternalRepairCost → InternalRepairCost
register c = record c { status = registered }

pub data ExternalRepairInvoiceStatus : Type 0 where
  uploaded approved paid : ExternalRepairInvoiceStatus

unfoldable pub ExternalRepairInvoiceStatus-discrete : Discrete ExternalRepairInvoiceStatus
ExternalRepairInvoiceStatus-discrete = hlevel

pub record ExternalRepairInvoice : Type 0 where
  pub id : Uuid
  pub repair_order_id : Uuid
  pub amount : Decimal
  pub currency : Text
  pub status : ExternalRepairInvoiceStatus
  pub created_by_id : Uuid
  pub created_at : DateTime
  pub updated_at : DateTime
  pub vendor_id : Option Text
  pub document : Option Text

-- `RepairOrderInvalidStateTransitionError`
pub data InvoiceError : Type 0 where
  invalid_transition : ExternalRepairInvoiceStatus → ExternalRepairInvoiceStatus → InvoiceError

unfoldable pub approve : Update ExternalRepairInvoice InvoiceError
approve = do
  i ← get
  when (not (is ExternalRepairInvoiceStatus-discrete i.status uploaded))
      (raise (invalid_transition i.status approved))
  modify (λ j. record j { status = approved })
