-- ===== src/Procurement/Order.antt =====
-- The aggregate `PurchaseOrder` (apps/procurement/domain/entities.py). The sum `total_value` and the
-- test `is_fully_received` are left out: they rest on the arithmetic of `decimal`.
use fmms.Prelude.{
  ◌≡◌, ◌⊎◌, inl, inr, Bool, true, not, Option, some, List, [], ◌∷◌, Uuid, DateTime, Text, Decimal,
  is_some, member, All, false, Update, ◌>>=◌, ◌>>◌, get, modify, raise, when, arith,
}
use fmms.Procurement.Values.{Quantity, Money}

pub data PoStatus : Type 0 where
  created : PoStatus
  approved : PoStatus
  partially_received : PoStatus
  received : PoStatus
  cancelled : PoStatus

unfoldable pub PoStatus-discrete : Discrete PoStatus
PoStatus-discrete = hlevel

-- `_PO_ALLOWED_TRANSITIONS`
unfoldable pub allowed_transitions : PoStatus → List PoStatus
allowed_transitions created = approved ∷ cancelled ∷ []
allowed_transitions approved = partially_received ∷ received ∷ cancelled ∷ []
allowed_transitions partially_received = received ∷ cancelled ∷ []
allowed_transitions received = []
allowed_transitions cancelled = []

-- `target in _PO_ALLOWED_TRANSITIONS.get(status, frozenset())`
unfoldable pub allows : PoStatus → PoStatus → Bool
unfolding PoStatus-discrete allowed_transitions
allows status target = member PoStatus-discrete target (allowed_transitions status)

pub record PoLineItem : Type 0 where
  pub id : Uuid
  pub material_number : Text
  pub quantity : Quantity
  pub unit_price : Money
  pub received_quantity : Decimal

pub record PurchaseOrder : Type 0 where
  pub id : Uuid
  pub pr_id : Uuid
  pub vendor_number : Text
  pub status : PoStatus
  pub created_by_id : Uuid
  pub created_at : DateTime
  pub updated_at : DateTime
  pub line_items : List PoLineItem
  pub sap_po_number : Option Text
  pub approved_by_id : Option Uuid

-- `ProcurementInvalidStateTransitionError`
pub data PoError : Type 0 where
  invalid_transition : PoStatus → PoStatus → PoError

unfoldable pub transition_to : PoStatus → Update PurchaseOrder PoError
unfolding allows
transition_to target = do
  o ← get
  when (not (allows o.status target)) (raise (invalid_transition o.status target))
  modify (λ p. record p { status = target })

unfoldable pub approve : Uuid → Update PurchaseOrder PoError
unfolding transition_to
approve user = do transition_to approved; modify (λ o. record o { approved_by_id = some user })

unfoldable pub record_partial_receipt : Update PurchaseOrder PoError
unfolding transition_to
record_partial_receipt = transition_to partially_received

unfoldable pub record_full_receipt : Update PurchaseOrder PoError
unfolding transition_to
record_full_receipt = transition_to received

unfoldable pub cancel : Update PurchaseOrder PoError
unfolding transition_to
cancel = transition_to cancelled

unfoldable pub link_sap_po : Text → Update PurchaseOrder PoError
link_sap_po n = modify (λ o. record o { sap_po_number = some n })

-- A call of a method, with its arguments.
pub data Call : Type 0 where
  approve_by : Uuid → Call
  receive_part receive_all cancel_it : Call
  link : Text → Call
  move : PoStatus → Call

unfoldable pub apply : Call → Update PurchaseOrder PoError
unfolding transition_to approve record_partial_receipt record_full_receipt cancel link_sap_po
apply (approve_by u) = approve u
apply receive_part = record_partial_receipt
apply receive_all = record_full_receipt
apply cancel_it = cancel
apply (link n) = link_sap_po n
apply (move s) = transition_to s

unfoldable pub run : List Call → PurchaseOrder → PurchaseOrder
run [] o = o
run (c ∷ cs) o = run cs (apply c o).1

-- Goods are received only on an approved order.
abbrev pub IsApproved : PurchaseOrder → Type 0
IsApproved o = ((o.status ≡ created) ⊎ (o.status ≡ cancelled)) ⊎ (is_some o.approved_by_id ≡ true)

-- The calls but a bare `transition_to`, which sets a status alone.
abbrev pub is_named : Call → Bool
is_named (move _) = false
is_named _ = true

apply-IsApproved :
    (c : Call) (o : PurchaseOrder) → is_named c ≡ true → IsApproved o → IsApproved (apply c o).1
unfolding apply
apply-IsApproved cancel_it o n h = ground arith
apply-IsApproved (move s) o n h = cc
apply-IsApproved _ o n h = ground arith

run-IsApproved :
    (cs : List Call) (o : PurchaseOrder)
    → All (λ c. is_named c ≡ true) cs
    → IsApproved o
    → IsApproved (run cs o)
unfolding run
run-IsApproved [] o n h = h
run-IsApproved (c ∷ cs) o (n, ns) h = run-IsApproved cs (apply c o).1 ns (apply-IsApproved c o n h)

-- From a CREATED order on, whatever methods but a bare `transition_to` are called, an order that is APPROVED,
-- PARTIALLY_RECEIVED or RECEIVED names the user who approved it.
pub received_approved :
    (cs : List Call) (o : PurchaseOrder)
    → All (λ c. is_named c ≡ true) cs
    → o.status ≡ created
    → let p = run cs o in
      (p.status ≡ approved) ⊎ (p.status ≡ partially_received) ⊎ (p.status ≡ received)
      → is_some p.approved_by_id ≡ true
received_approved cs o n e h = elim (run-IsApproved cs o n (inl (inl e))) [
  | inl c ↦ ground arith
  | inr a ↦ a
]
