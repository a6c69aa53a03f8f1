-- ===== src/Workflow/Refusals.antt =====
-- What a service that raises leaves behind.
use fmms.Prelude.{
  ◌≡◌, ◌≢◌, refl, true, false, some, List, [], ◌∷◌, ◌==◌, Uuid, DateTime, err, is, arith,
}
use fmms.Repair.Order.{RepairOrder}
use fmms.Material.{MaterialRequest, MaterialRequestStatus-discrete, stock_issued, received}
use fmms.Material
use fmms.Workflow.Table.{Row, find, select, row_of}
use fmms.Workflow.Database.{
  Database, rejected, consumed_parts_required, material_receive_requires_stock_issued, order_id,
  material_id, load_order,
}
use fmms.Workflow.Workshop.{
  materials_of_order, pending_material, has_received_parts, refuse_pending, check_materials,
  complete_repair_order,
}
use fmms.Workflow.Materials.{load_material, receive_materials}

module _ (k i : Uuid) where
  has_received_parts-received :
      (rows : List (Row MaterialRequest)) {r : MaterialRequest}
      → find material_id k rows ≡ some r
      → r.repair_order_id ≡ i
      → r.status ≡ received
      → has_received_parts (select (λ (q : MaterialRequest). q.repair_order_id == i) rows) ≡ true
  unfolding row_of select has_received_parts MaterialRequestStatus-discrete
  has_received_parts-received [] h o p = ground arith
  has_received_parts-received (w ∷ rows) {r} h o p =
      ground (arith, has_received_parts-received rows {r = r})

-- With a material request of the order received, none of its requests pending and no part recorded as
-- consumed, a repair is completed only if the user says that no parts were consumed: otherwise the
-- service raises and changes nothing.
pub complete_refused-parts :
    (fresh i k : Uuid) (at : DateTime) (user : Uuid) (now : DateTime) (db : Database)
    {o : RepairOrder} {r : MaterialRequest}
    → find order_id i db.orders ≡ some o
    → o.parts ≡ []
    → pending_material (select (λ (q : MaterialRequest). q.repair_order_id == i) db.materials) ≡ []
    → find material_id k db.materials ≡ some r
    → r.repair_order_id ≡ i
    → r.status ≡ received
    → complete_repair_order fresh i at false user now db
      ≡ (err (rejected consumed_parts_required), db)
unfolding complete_repair_order load_order materials_of_order check_materials refuse_pending
complete_refused-parts fresh i k at user now db {r = r} h q p f m s =
    simp (h, q, p, has_received_parts-received k i db.materials {r = r} f m s) refl

is_not_issued :
    (r : MaterialRequest)
    → r.status ≢ stock_issued
    → is MaterialRequestStatus-discrete r.status stock_issued ≡ false
unfolding MaterialRequestStatus-discrete
is_not_issued r n = ground arith

-- Parts that are not issued from stock are not received: the service raises and changes nothing.
receive_refused :
    (i user : Uuid) (now : DateTime) (db : Database) {r : MaterialRequest}
    → find material_id i db.materials ≡ some r
    → r.status ≢ stock_issued
    → receive_materials i user now db ≡ (err (rejected material_receive_requires_stock_issued), db)
unfolding receive_materials load_material
receive_refused i user now db {r} h n = simp (h, is_not_issued r n) refl
