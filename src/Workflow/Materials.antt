-- ===== src/Workflow/Materials.antt =====
-- The request of parts for a repair, and their receipt
-- (apps/material/application/services/material_request_service.py).
use fmms.Prelude.{
  Bool, not, none, some, List, Uuid, DateTime, Text, Decimal, is, Update, ◌>>=◌, ◌>>◌, pure, get,
  modify, raise, when, map,
}
use fmms.Repair.Status.{in_progress, waiting_parts}
use fmms.Repair.Order
use fmms.Repair.Order.{RepairOrder, status_is}
use fmms.Repair.Event.{material_requested, parts_received}
use fmms.Material
use fmms.Material.{
  MaterialRequest, MaterialRequestItem, MaterialRequestStatus-discrete, MaterialError, stock_issued,
  pending, waiting,
}
use fmms.Workflow.Table.{find}
use fmms.Workflow.Database.{
  Database, Call, ServiceError, rejected, material_missing, material_request_requires_in_progress,
  material_receive_requires_stock_issued, material_error, required, on, material_id, load_order,
  save_material, record_event,
}
use fmms.Workflow.Steps.{change_order}

-- An item of `CreateMaterialRequestDTO`, with the id that it gets.
pub record ItemData : Type 0 where
  pub item_id : Uuid
  pub material_number : Text
  pub quantity : Decimal
  pub unit_of_measure : Text
  pub from_catalog : Bool

unfoldable pub new_item : ItemData → MaterialRequestItem
new_item d = record {
  id = d.item_id;
  material_number = d.material_number;
  quantity = d.quantity;
  unit_of_measure = d.unit_of_measure;
  from_catalog = d.from_catalog;
  decision = pending;
  item_status = waiting;
  available_quantity_snapshot = none;
}

unfoldable pub new_request : Uuid → Uuid → List ItemData → Uuid → DateTime → MaterialRequest
unfolding new_item
new_request fresh order items user now = record {
  id = fresh;
  repair_order_id = order;
  status = Material.requested;
  created_by_id = user;
  created_at = now;
  updated_at = now;
  items = map new_item items;
}

-- `CreateMaterialRequestService.execute`
unfoldable pub request_materials :
    Uuid → Uuid → List ItemData → Uuid → DateTime → Call MaterialRequest
unfolding new_request
request_materials fresh i items user now = do
  o ← load_order i
  when (not (status_is in_progress o)) (raise (rejected material_request_requires_in_progress))
  save_material now (new_request fresh i items user now)
  change_order Order.wait_for_parts now o
  record_event i material_requested (some user) now
  pure (new_request fresh i items user now)

unfoldable pub load_material : Uuid → Call MaterialRequest
load_material i = do db ← get; required (material_missing i) (find material_id i db.materials)

-- `material_request.updated_at = now`
abbrev pub touch_material : DateTime → Update MaterialRequest MaterialError
touch_material now = modify (λ r. record r { updated_at = now })

-- `if order.status == WAITING_PARTS: ...`
unfoldable pub resume_repair : RepairOrder → DateTime → Update Database ServiceError
resume_repair o now =
    when (status_is waiting_parts o) (change_order Order.resume_after_parts now o >> pure tt)

-- `ReceiveMaterialRequestService.execute`
unfoldable pub receive_materials : Uuid → Uuid → DateTime → Call MaterialRequest
unfolding load_material resume_repair
receive_materials i user now = do
  r ← load_material i
  when (not (is MaterialRequestStatus-discrete r.status stock_issued))
      (raise (rejected material_receive_requires_stock_issued))
  saved ← on material_error (Material.receive >> touch_material now) r
  save_material now saved
  o ← load_order saved.repair_order_id
  resume_repair o now
  record_event saved.repair_order_id parts_received (some user) now
  pure saved
