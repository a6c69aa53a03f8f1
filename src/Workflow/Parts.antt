-- ===== src/Workflow/Parts.antt =====
-- The decision on the availability of parts, and the issue of purchased parts
-- (apps/material/application/services/parts_availability_decision_service.py).
use fmms.Prelude.{
  Bool, true, false, not, ◌&&◌, ◌||◌, Option, none, some, List, [], ◌∷◌, ◌++◌, ◌==◌, Uuid, DateTime,
  Text, Decimal, Text-discrete, Result, ok, err, is, text_truthy, strip, codes, length, leb, Update,
  ◌>>=◌, ◌>>◌, pure, modify, raise, when, if◌then◌else◌, map,
}
use fmms.Prelude.Decimals.{decimal_ltb}
use fmms.Material
use fmms.Material.{
  MaterialRequest, MaterialRequestItem, MaterialRequestStatus, MaterialRequestStatus-discrete,
  MaterialItemDecision, MaterialItemDecision-discrete, MaterialItemStatus,
  MaterialItemStatus-discrete, from_stock, purchase, pending, ready, to_purchase,
}
use fmms.Repair.Event
use fmms.Repair.Event.{RepairOrderEventType}
use fmms.Workflow.Database.{
  Database, Call, ServiceError, rejected, material_error, key_error, purchase_value_error,
  material_request_invalid_state, material_item_decisions_incomplete,
  material_item_decision_invalid, material_not_in_central_catalog, insufficient_central_stock,
  material_items_not_ready, material_pr_line_invalid, on, save_material, record_event,
}
use fmms.Workflow.Materials.{load_material, touch_material}
use fmms.Workflow.Purchases.{Alphabet, LineData, create_requisition, add_line}

-- `ICentralStockRepository`: what the stock of SAP has of a material.
pub record CentralStock : Type 0 where
  pub get_available_quantity : Text → Decimal
  pub material_exists : Text → Bool

-- `PartsItemDecisionDTO`
pub record ItemDecision : Type 0 where
  pub item_id : Uuid
  pub decision : MaterialItemDecision

-- `PartsAvailabilityDecisionDTO`, but for the request.
pub record PartsDecision : Type 0 where
  pub material_request_id : Uuid
  pub items : List ItemDecision
  pub decided_by : Uuid
  pub enforce_stock_check : Bool

-- The ids of the items, and those that were decided on.
unfoldable pub has_item : Uuid → List MaterialRequestItem → Bool
has_item i [] = false
has_item i (a ∷ l) = (a.id == i) || has_item i l

unfoldable pub has_decision : Uuid → List ItemDecision → Bool
has_decision i [] = false
has_decision i (d ∷ l) = (d.item_id == i) || has_decision i l

unfoldable pub all_decided : List MaterialRequestItem → List ItemDecision → Bool
unfolding has_decision
all_decided [] ds = true
all_decided (a ∷ l) ds = has_decision a.id ds && all_decided l ds

unfoldable pub all_known : List ItemDecision → List MaterialRequestItem → Bool
unfolding has_item
all_known [] l = true
all_known (d ∷ ds) l = has_item d.item_id l && all_known ds l

-- Every decision is FROM_STOCK or PURCHASE.
unfoldable pub all_made : List ItemDecision → Bool
unfolding MaterialItemDecision-discrete
all_made [] = true
all_made (d ∷ ds) = not (is MaterialItemDecision-discrete d.decision pending) && all_made ds

-- `_validate_item_decisions`
unfoldable pub validate_decisions :
    List MaterialRequestItem → List ItemDecision → Update Database ServiceError
unfolding all_decided all_known all_made
validate_decisions l ds = do
  when (not (all_decided l ds && all_known ds l))
      (raise (rejected material_item_decisions_incomplete))
  when (not (all_made ds)) (raise (rejected material_item_decision_invalid))

-- `decisions_by_id[item.id]`: the last decision on an item stands.
unfoldable pub decision_on : Uuid → List ItemDecision → Option MaterialItemDecision
decision_on i [] = none
decision_on i (d ∷ ds) =
    let rest = decision_on i ds in
    elim rest [ some e ↦ some e | none ↦ if d.item_id == i then some d.decision else none ]

-- The two checks on an item that is to come from stock.
unfoldable pub check_stock :
    CentralStock → Bool → MaterialRequestItem → Update Database ServiceError
unfolding decimal_ltb
check_stock x enforce i = do
  when (enforce && (not (x.material_exists i.material_number) || not i.from_catalog))
      (raise (rejected material_not_in_central_catalog))
  when (enforce && decimal_ltb (x.get_available_quantity i.material_number) i.quantity)
      (raise (rejected insufficient_central_stock))

-- An item with its decision; whatever is not FROM_STOCK is purchased.
unfoldable pub decided :
    CentralStock → Bool → MaterialRequestItem → MaterialItemDecision → Call MaterialRequestItem
unfolding check_stock
decided x enforce i from_stock = do
  check_stock x enforce i
  pure record i {
    decision = from_stock;
    item_status = ready;
    available_quantity_snapshot = some (x.get_available_quantity i.material_number);
  }
decided x enforce i d = pure record i {
  decision = d;
  item_status = to_purchase;
  available_quantity_snapshot = some (x.get_available_quantity i.material_number);
}

unfoldable pub decide_item :
    CentralStock
    → Bool
    → MaterialRequestItem
    → Option MaterialItemDecision
    → Call MaterialRequestItem
unfolding decided
decide_item x enforce i none = raise (key_error i.id)
decide_item x enforce i (some d) = decided x enforce i d

-- `_apply_item_decisions`
unfoldable pub decide_items :
    CentralStock
    → Bool
    → List ItemDecision
    → List MaterialRequestItem
    → Call (List MaterialRequestItem)
unfolding decide_item decision_on
decide_items x enforce ds [] = pure []
decide_items x enforce ds (i ∷ l) = do
  j ← decide_item x enforce i (decision_on i.id ds)
  rest ← decide_items x enforce ds l
  pure (j ∷ rest)

-- Every item has the decision.
unfoldable pub all_decide : MaterialItemDecision → List MaterialRequestItem → Bool
unfolding MaterialItemDecision-discrete
all_decide d [] = true
all_decide d (i ∷ l) = is MaterialItemDecision-discrete i.decision d && all_decide d l

-- `_aggregate_header_status`, where no item makes an empty set.
unfoldable pub header_status : List MaterialRequestItem → MaterialRequestStatus
unfolding all_decide
header_status [] = Material.partially_issued
header_status (i ∷ l) =
    if all_decide from_stock (i ∷ l)
    then Material.stock_issued
    else if all_decide purchase (i ∷ l)
    then Material.purchase_required
    else Material.partially_issued

unfoldable pub items_with :
    MaterialItemDecision → List MaterialRequestItem → List MaterialRequestItem
unfolding MaterialItemDecision-discrete
items_with d [] = []
items_with d (i ∷ l) =
    let rest = items_with d l in
    if is MaterialItemDecision-discrete i.decision d then i ∷ rest else rest

-- `create_issue_for_material_request`
unfoldable pub create_issue : Uuid → Update Database ServiceError
create_issue i = modify (λ db. record db { issues = db.issues ++ (i ∷ []) })

abbrev pub issue_when : List MaterialRequestItem → Uuid → Update Database ServiceError
issue_when [] i = pure tt
issue_when (_ ∷ _) i = create_issue i

-- `"EA"` for a unit that is missing.
unfoldable pub unit_or_each : Text → Text
unfolding Text-discrete
unit_or_each unit =
    if not (text_truthy unit) || is Text-discrete unit (codes "-") then codes "EA" else unit

-- The words in Persian for a purchase out of the catalog.
abbrev pub bought_outside : Text
bought_outside =
    1582 ∷ 1585 ∷ 1740 ∷ 1583 ∷ 32 ∷ 1582 ∷ 1575 ∷ 1585 ∷ 1580 ∷ 32 ∷ 1575 ∷ 1586 ∷ 32 ∷ 1705 ∷ 1575
    ∷ 1578 ∷ 1575 ∷ 1604 ∷ 1608 ∷ 1711 ∷ 58 ∷ 32 ∷ []

-- `_pr_line_fields`, with the id of the line.
unfoldable pub line_fields : Alphabet → (Uuid → Uuid) → MaterialRequestItem → LineData
unfolding unit_or_each
line_fields x id_of i =
    let raw = strip i.material_number in
    let numbered = x.digits raw && leb (length raw) 18 in
    record {
      line_id = id_of i.id;
      material_number = if numbered then raw else codes "000000000000000000";
      quantity = i.quantity;
      unit_of_measure = unit_or_each (strip i.unit_of_measure);
      description =
          if numbered
          then (if i.from_catalog
              then codes "Material request auto-generated line item."
              else codes "Out-of-catalog purchase: " ++ raw)
          else bought_outside ++ raw;
      estimated_amount = none;
      currency = none;
    }

-- `except ValueError` around a line.
unfoldable pub line_error : ServiceError → ServiceError
line_error (purchase_value_error e) = rejected material_pr_line_invalid
line_error e = e

unfoldable pub line_caught :
    {A : Type 0} → Result ServiceError A × Database → Result ServiceError (Unit {0}) × Database
unfolding line_error
line_caught (ok a, db) = (ok tt, db)
line_caught (err e, db) = (err (line_error e), db)

unfoldable pub add_lines :
    Alphabet
    → (Uuid → Uuid)
    → Uuid
    → DateTime
    → List MaterialRequestItem
    → Update Database ServiceError
unfolding line_caught line_fields
add_lines x id_of pr now [] = pure tt
add_lines x id_of pr now (i ∷ l) =
    (λ db. line_caught (add_line x pr (line_fields x id_of i) now db)) >> add_lines x id_of pr now l

-- `_create_purchase_lines`, if there are items to purchase; `fresh` is the id of the requisition.
unfoldable pub create_lines :
    Alphabet
    → (Uuid → Uuid)
    → Uuid
    → MaterialRequest
    → Uuid
    → DateTime
    → List MaterialRequestItem
    → Update Database ServiceError
unfolding add_lines
create_lines x id_of fresh r user now [] = pure tt
create_lines x id_of fresh r user now (i ∷ l) = do
  create_requisition fresh r.repair_order_id user (some r.id) now
  add_lines x id_of fresh now (i ∷ l)

-- The event of the new status.
unfoldable pub record_status : MaterialRequest → Uuid → DateTime → Update Database ServiceError
unfolding MaterialRequestStatus-discrete
record_status r user now =
    record_event r.repair_order_id
      (if is MaterialRequestStatus-discrete r.status Material.stock_issued
        then Event.stock_issued
        else Event.purchase_required)
      (some user) now

-- `material_request.approve()` and what follows it in the entity.
unfoldable pub conclude :
    DateTime → MaterialRequest → List MaterialRequestItem → Call MaterialRequest
unfolding header_status
conclude now r l =
    on material_error
      (Material.approve >> Material.transition_to (header_status l) >> touch_material now)
      (record r { items = l })

-- `DecidePartsAvailabilityService.execute`; `fresh` is the id of the requisition.
unfoldable pub decide_parts :
    CentralStock → Alphabet → (Uuid → Uuid) → Uuid → PartsDecision → DateTime → Call MaterialRequest
unfolding validate_decisions decide_items conclude create_lines record_status items_with
decide_parts stock x id_of fresh d now = do
  r ← load_material d.material_request_id
  when (not (is MaterialRequestStatus-discrete r.status Material.requested))
      (raise (rejected material_request_invalid_state))
  validate_decisions r.items d.items
  l ← decide_items stock d.enforce_stock_check d.items r.items
  s ← conclude now r l
  save_material now s
  issue_when (items_with from_stock s.items) s.id
  create_lines x id_of fresh s d.decided_by now (items_with purchase s.items)
  record_event s.repair_order_id Event.material_approved (some d.decided_by) now
  record_status s d.decided_by now
  pure s

-- `if item.item_status == PURCHASE_REQUIRED: ...`
unfoldable pub ready_item : MaterialRequestItem → MaterialRequestItem
unfolding MaterialItemStatus-discrete
ready_item i =
    if is MaterialItemStatus-discrete i.item_status to_purchase
    then record i { item_status = ready }
    else i

unfoldable pub all_ready : List MaterialRequestItem → Bool
unfolding MaterialItemStatus-discrete
all_ready [] = true
all_ready (i ∷ l) = is MaterialItemStatus-discrete i.item_status ready && all_ready l

-- The statuses from which purchased parts are issued.
unfoldable pub awaits_purchase : MaterialRequestStatus → Bool
awaits_purchase Material.purchase_required = true
awaits_purchase Material.waiting_stock = true
awaits_purchase Material.partially_issued = true
awaits_purchase _ = false

-- `IssuePurchasedPartsService.execute`
unfoldable pub issue_parts : Uuid → Uuid → DateTime → Call MaterialRequest
unfolding awaits_purchase ready_item all_ready
issue_parts i user now = do
  r ← load_material i
  when (not (awaits_purchase r.status)) (raise (rejected material_request_invalid_state))
  when (not (all_ready (map ready_item r.items))) (raise (rejected material_items_not_ready))
  s ←
      on material_error (Material.transition_to Material.stock_issued >> touch_material now)
        (record r { items = map ready_item r.items })
  save_material now s
  create_issue s.id
  record_event s.repair_order_id Event.stock_issued (some user) now
  pure s
