-- ===== src/Workflow/Editing.antt =====
-- The services on the technician, the activities, the parts and the cost of a repair order
-- (assign_repair_order_service.py, add_repair_activity_service.py and
-- register_internal_repair_cost_service.py in apps/repair/application/services).
use fmms.Prelude.{
  Bool, false, not, Option, none, some, ◌==◌, Uuid, DateTime, Text, ℤ, Decimal, is, text_truthy,
  ◌>>=◌, ◌>>◌, pure, get, raise, when, if◌then◌else◌, [], ◌∷◌,
}
use fmms.Repair.Status.{internal}
use fmms.Repair.Order
use fmms.Repair.Order.{
  RepairOrder, PartQuantity, LaborHours, RepairPart, RepairActivity, workshop_is,
}
use fmms.Repair.Order.Items
use fmms.Repair.Values.{part_quantity, labor_hours}
use fmms.Repair.Costs.{
  InternalRepairCost, InternalRepairCostStatus-discrete, draft, registered, register,
}
use fmms.Workflow.Table.{first}
use fmms.Workflow.Database.{
  Call, rejected, internal_cost_requires_internal_workshop, internal_cost_already_registered, built,
  load_order, save_cost,
}
use fmms.Workflow.Steps.{change_order}

-- `AssignRepairOrderService.execute`
unfoldable pub assign_technician : Uuid → Uuid → DateTime → Call RepairOrder
assign_technician i technician now = do
  o ← load_order i
  change_order (Order.assign_technician record { technician_id = technician; assigned_at = now })
      now o

unfoldable pub new_activity :
    Uuid → Text → LaborHours → Uuid → DateTime → Option Text → RepairActivity
new_activity fresh text hours by at notes = record {
  id = fresh;
  description = text;
  labor_hours = hours;
  performed_by_id = by;
  performed_at = at;
  notes = notes;
}

-- `AddRepairActivityService.execute`
unfoldable pub add_activity :
    Uuid → Uuid → Text → Decimal → Uuid → DateTime → Option Text → DateTime → Call RepairOrder
unfolding new_activity
add_activity fresh i text hours by at notes now = do
  o ← load_order i
  h ← built (labor_hours hours)
  change_order (Items.add_activity (new_activity fresh text h by at notes)) now o

-- `UpdateRepairActivityService.execute`
unfoldable pub update_activity :
    Uuid → Uuid → Text → Decimal → Option Text → DateTime → Call RepairOrder
update_activity i activity text hours notes now = do
  o ← load_order i
  h ← built (labor_hours hours)
  change_order (Items.update_activity activity text h notes) now o

-- `DeleteRepairActivityService.execute`
unfoldable pub delete_activity : Uuid → Uuid → DateTime → Call RepairOrder
delete_activity i activity now = do
  o ← load_order i
  change_order (Items.delete_activity activity) now o

unfoldable pub new_part : Uuid → PartQuantity → RepairPart
new_part fresh q = record { id = fresh; part_quantity = q; goods_issue_id = none; posted_at = none }

-- `AddRepairPartService.execute`
unfoldable pub add_part : Uuid → Uuid → Text → ℤ → Text → DateTime → Call RepairOrder
unfolding new_part
add_part fresh i material quantity unit now = do
  o ← load_order i
  q ← built (part_quantity material quantity unit)
  change_order (Items.add_part (new_part fresh q)) now o

-- `UpdateRepairPartService.execute`
unfoldable pub update_part : Uuid → Uuid → Text → ℤ → Text → DateTime → Call RepairOrder
update_part i part material quantity unit now = do
  o ← load_order i
  q ← built (part_quantity material quantity unit)
  change_order (Items.update_part part q) now o

-- `DeleteRepairPartService.execute`
unfoldable pub delete_part : Uuid → Uuid → DateTime → Call RepairOrder
delete_part i part now = do o ← load_order i; change_order (Items.delete_part part) now o

-- The fields of `RegisterInternalRepairCostDTO` that go into the document.
pub record CostData : Type 0 where
  pub invoice_number : Text
  pub labor_cost : Decimal
  pub parts_cost : Decimal
  pub service_cost : Decimal
  pub currency : Text
  pub notes : Text

-- `dto.currency or "IRR"`
abbrev pub currency_or_rial : Text → Text
currency_or_rial t = if text_truthy t then t else 73 ∷ 82 ∷ 82 ∷ []

unfoldable pub new_cost : Uuid → RepairOrder → CostData → Uuid → DateTime → InternalRepairCost
new_cost fresh o d user now = record {
  id = fresh;
  repair_order_id = o.id;
  invoice_number = d.invoice_number;
  labor_cost = d.labor_cost;
  parts_cost = d.parts_cost;
  service_cost = d.service_cost;
  currency = currency_or_rial d.currency;
  status = draft;
  notes = d.notes;
  registered_by_id = user;
  created_at = now;
  updated_at = now;
}

-- `existing or InternalRepairCost(...)`
abbrev pub or_new : InternalRepairCost → Option InternalRepairCost → InternalRepairCost
or_new new none = new
or_new new (some c) = c

unfoldable pub fill_cost : CostData → Uuid → DateTime → InternalRepairCost → InternalRepairCost
fill_cost d user now c = record c {
  invoice_number = d.invoice_number;
  labor_cost = d.labor_cost;
  parts_cost = d.parts_cost;
  service_cost = d.service_cost;
  currency = currency_or_rial d.currency;
  notes = d.notes;
  registered_by_id = user;
  updated_at = now;
}

abbrev pub has_registered : Option InternalRepairCost → Bool
has_registered none = false
has_registered (some c) = is InternalRepairCostStatus-discrete c.status registered

-- `cost_repository.get_by_repair_order`
unfoldable pub cost_of_order : Uuid → Call (Option InternalRepairCost)
cost_of_order i = do
  db ← get
  pure (first (λ (c : InternalRepairCost). c.repair_order_id == i) db.costs)

-- `RegisterInternalRepairCostService.execute`
unfoldable pub register_cost : Uuid → Uuid → CostData → Uuid → DateTime → Call InternalRepairCost
unfolding new_cost fill_cost cost_of_order InternalRepairCostStatus-discrete
register_cost fresh i d user now = do
  o ← load_order i
  when (not (workshop_is internal o.workshop_type))
      (raise (rejected internal_cost_requires_internal_workshop))
  found ← cost_of_order o.id
  when (has_registered found) (raise (rejected internal_cost_already_registered))
  save_cost now (register (fill_cost d user now (or_new (new_cost fresh o d user now) found)))
  pure (register (fill_cost d user now (or_new (new_cost fresh o d user now) found)))
