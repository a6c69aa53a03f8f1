-- ===== src/OpenFlow.antt =====
-- The guard of one open fault or repair for each vehicle, core/workflow/vehicle_open_flow.py, with
-- the queries that it runs (apps/repair/infrastructure/repositories.py and
-- apps/fault/infrastructure/repositories.py). A table is the list of its rows.
use fmms.Prelude.{
  ◌≡◌, ◌≢◌, ◌⊎◌, ◌↔◌, inl, inr, refl, ap, ◌∙◌, Bool, true, false, not, ◌&&◌, ◌||◌, Option, none,
  some, List, [], ◌∷◌, ◌==◌, All, Uuid, member, Result, ok, err, is, if◌then◌else◌, Bool-cases,
  arith,
}
use fmms.Repair.Status.{
  RepairOrderStatus, completed, cancelled, accepted_by_driver, rejected_by_driver,
  rejected_by_transport, no_repair_needed, RepairOrderStatus-discrete,
}
use fmms.Repair.Order.{RepairOrder}
use fmms.Fault.Status.{closed, FaultStatus-discrete}
use fmms.Fault.Entity.{Fault}
use fmms.Workflow.Table.{Row}
pub mod Examples

abbrev pub OrderRow : Type 0
OrderRow = Row RepairOrder

abbrev pub FaultRow : Type 0
FaultRow = Row Fault

-- `_TERMINAL_STATUSES` of the repository, which has ACCEPTED_BY_DRIVER beside those of the entity.
unfoldable pub finished_statuses : List RepairOrderStatus
finished_statuses =
    completed ∷ cancelled ∷ accepted_by_driver ∷ rejected_by_driver ∷ rejected_by_transport
    ∷ no_repair_needed ∷ []

unfoldable pub is_finished : RepairOrderStatus → Bool
unfolding finished_statuses RepairOrderStatus-discrete
is_finished s = member RepairOrderStatus-discrete s finished_statuses

-- The filter of both queries on repair orders.
abbrev pub is_active_row : Uuid → OrderRow → Bool
is_active_row v r =
    (r.entity.vehicle_id == v) && not r.is_deleted && not (is_finished r.entity.status)

abbrev pub is_open_row : Uuid → FaultRow → Bool
is_open_row v r =
    (r.entity.vehicle_id == v)
    && not r.is_deleted
    && not (is FaultStatus-discrete r.entity.status closed)

unfoldable pub has_open_repair_order_for_vehicle : Uuid → List OrderRow → Bool
has_open_repair_order_for_vehicle v [] = false
has_open_repair_order_for_vehicle v (r ∷ rows) =
    is_active_row v r || has_open_repair_order_for_vehicle v rows

unfoldable pub has_open_fault_for_vehicle : Uuid → List FaultRow → Bool
has_open_fault_for_vehicle v [] = false
has_open_fault_for_vehicle v (r ∷ rows) = is_open_row v r || has_open_fault_for_vehicle v rows

unfoldable pub list_active_by_vehicle : Uuid → List OrderRow → List RepairOrder
list_active_by_vehicle v [] = []
list_active_by_vehicle v (r ∷ rows) =
    let rest = list_active_by_vehicle v rows in if is_active_row v r then r.entity ∷ rest else rest

-- `[order.id for order in active_repairs]`
unfoldable pub order_ids : List RepairOrder → List Uuid
order_ids [] = []
order_ids (o ∷ l) = o.id ∷ order_ids l

-- `FMMSStateError` with its details: whether `has_open_fault` is set, and `active_repair_order_ids`
-- if it is.
pub data FlowError : Type 0 where
  open_flow : Uuid → Bool → Option (List Uuid) → FlowError

unfoldable pub assert_vehicle_has_no_open_flow :
    Uuid → List FaultRow → List OrderRow → Result FlowError (Unit {0})
assert_vehicle_has_no_open_flow v faults orders =
    let open_fault = has_open_fault_for_vehicle v faults in
    let open_repair = has_open_repair_order_for_vehicle v orders in
    if not open_fault && not open_repair
    then ok tt
    else err (
        open_flow v open_fault
          (if open_repair then some (order_ids (list_active_by_vehicle v orders)) else none))

-- The rule: a row of the vehicle that is not deleted is finished.
abbrev pub Finished : Uuid → OrderRow → Type 0
Finished v r = r.entity.vehicle_id ≡ v → r.is_deleted ≡ false → is_finished r.entity.status ≡ true

abbrev pub Closed : Uuid → FaultRow → Type 0
Closed v r = r.entity.vehicle_id ≡ v → r.is_deleted ≡ false → r.entity.status ≡ closed

is_active_row-Finished : (v : Uuid) (r : OrderRow) → (is_active_row v r ≡ false) ↔ Finished v r
is_active_row-Finished v r = elim (Bool-cases (r.entity.vehicle_id == v)) [
  | inl e ↦ (λ h _ d. ground arith, λ f. ground (arith, f (ground arith)))
  | inr e ↦ (λ h p d. ground arith, λ f. ground arith)
]

is_open_row-Closed : (v : Uuid) (r : FaultRow) → (is_open_row v r ≡ false) ↔ Closed v r
is_open_row-Closed v r = elim (Bool-cases (r.entity.vehicle_id == v)) [
  | inl e ↦ (λ h _ d. ground arith, λ f. ground (arith, f (ground arith)))
  | inr e ↦ (λ h p d. ground arith, λ f. ground arith)
]

has_open_repair_lem :
    (v : Uuid) (rows : List OrderRow)
    → (has_open_repair_order_for_vehicle v rows ≡ false) ↔ All (Finished v) rows
unfolding has_open_repair_order_for_vehicle
has_open_repair_lem v [] = (λ _. tt, λ _. refl)
has_open_repair_lem v (r ∷ rows) =
    let (f, g) = is_active_row-Finished v r in
    let (fs, gs) = has_open_repair_lem v rows in
    (λ h. (f (ground arith), fs (ground arith)), λ (p, ps). ground (arith, g p, gs ps))

has_open_fault_lem :
    (v : Uuid) (rows : List FaultRow)
    → (has_open_fault_for_vehicle v rows ≡ false) ↔ All (Closed v) rows
unfolding has_open_fault_for_vehicle
has_open_fault_lem v [] = (λ _. tt, λ _. refl)
has_open_fault_lem v (r ∷ rows) =
    let (f, g) = is_open_row-Closed v r in
    let (fs, gs) = has_open_fault_lem v rows in
    (λ h. (f (ground arith), fs (ground arith)), λ (p, ps). ground (arith, g p, gs ps))

-- The guard passes exactly where every fault of the vehicle is CLOSED and every repair order of it
-- finished, deleted rows aside.
pub assert_vehicle_has_no_open_flow_iff :
    (v : Uuid) (faults : List FaultRow) (orders : List OrderRow)
    → (assert_vehicle_has_no_open_flow v faults orders ≡ ok tt)
      ↔ (All (Closed v) faults × All (Finished v) orders)
unfolding assert_vehicle_has_no_open_flow
assert_vehicle_has_no_open_flow_iff v faults orders =
    let (f, g) = has_open_fault_lem v faults in
    let (f₂, g₂) = has_open_repair_lem v orders in
    (λ h. (f (ground arith), f₂ (ground arith)), λ (p, q). ground (arith, g p, g₂ q))

list_active_none :
    (v : Uuid) (rows : List OrderRow)
    → has_open_repair_order_for_vehicle v rows ≡ true
    → order_ids (list_active_by_vehicle v rows) ≢ []
unfolding has_open_repair_order_for_vehicle list_active_by_vehicle order_ids
list_active_none v [] h = ground arith
list_active_none v (r ∷ rows) h = ground (arith, list_active_none v rows)

named :
    (v : Uuid) (faults : List FaultRow) (orders : List OrderRow) {w : Uuid} {b : Bool}
    {ids : Option (List Uuid)}
    → assert_vehicle_has_no_open_flow v faults orders ≡ err (open_flow w b ids)
    → ((ids ≡ none) × All (Finished v) orders)
      ⊎ ((ids ≡ some (order_ids (list_active_by_vehicle v orders)))
          × (order_ids (list_active_by_vehicle v orders) ≢ []))
unfolding assert_vehicle_has_no_open_flow
named v faults orders h = elim (Bool-cases (has_open_repair_order_for_vehicle v orders)) [
  | inl e ↦ inr (ground arith, list_active_none v orders e)
  | inr e ↦ inl (ground arith, (has_open_repair_lem v orders).0 e)
]

pub open_flow_named :
    (v : Uuid) (faults : List FaultRow) (orders : List OrderRow) {w : Uuid} {b : Bool}
    {ids : Option (List Uuid)}
    → assert_vehicle_has_no_open_flow v faults orders ≡ err (open_flow w b ids)
    → (w ≡ v)
      × ((b ≡ false) ↔ All (Closed v) faults)
      × ((b ≡ true) ⊎ (ids ≢ none))
      × (((ids ≡ none) × All (Finished v) orders)
          ⊎ ((ids ≡ some (order_ids (list_active_by_vehicle v orders)))
              × (order_ids (list_active_by_vehicle v orders) ≢ [])))
unfolding assert_vehicle_has_no_open_flow
open_flow_named v faults orders {w} {b} {ids} h =
    let (f, g) = has_open_fault_lem v faults in
    elim (Bool-cases (has_open_fault_for_vehicle v faults)) [
      | inl e ↦ (
        ground arith,
        (λ u. ground arith, λ c. ground (arith, g c)),
        inl (ground arith),
        named v faults orders h,
      )
      | inr e ↦ elim (Bool-cases (has_open_repair_order_for_vehicle v orders)) [
        | inl e₂ ↦ (
          ground arith,
          (λ u. f e, λ c. ground arith),
          inr (ground arith),
          named v faults orders h,
        )
        | inr e₂ ↦ ground arith
      ]
    ]

raised :
    (v : Uuid) (faults : List FaultRow) (orders : List OrderRow) (r : Result FlowError (Unit {0}))
    → assert_vehicle_has_no_open_flow v faults orders ≡ r
    → ¬ (All (Closed v) faults × All (Finished v) orders)
    → (b : Bool) × (ids : Option (List Uuid)) × (assert_vehicle_has_no_open_flow v faults orders
        ≡ err (open_flow v b ids))
raised v faults orders (ok u) e h =
    absurd (h ((assert_vehicle_has_no_open_flow_iff v faults orders).0 e))
raised v faults orders (err (open_flow w b ids)) e h =
    (b, ids, e ∙ ap (λ u. err (open_flow u b ids)) (open_flow_named v faults orders e).0)

-- The guard raises its error wherever a fault of the vehicle or a repair order of it is open.
pub open_flow_raised :
    (v : Uuid) (faults : List FaultRow) (orders : List OrderRow)
    → ¬ (All (Closed v) faults × All (Finished v) orders)
    → (b : Bool) × (ids : Option (List Uuid)) × (assert_vehicle_has_no_open_flow v faults orders
        ≡ err (open_flow v b ids))
open_flow_raised v faults orders h =
    raised v faults orders (assert_vehicle_has_no_open_flow v faults orders) refl h
