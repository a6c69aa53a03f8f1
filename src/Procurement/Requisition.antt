-- ===== src/Procurement/Requisition.antt =====
-- The aggregate `PurchaseRequisition` (apps/procurement/domain/entities.py).
use fmms.Prelude.{
  ◌≡◌, ◌⊎◌, refl, Bool, not, Option, some, List, [], ◌∷◌, ◌++◌, Uuid, DateTime, Text, is, member,
  Update, ◌>>=◌, ◌>>◌, get, modify, raise, when, ◌∙◌, arith,
}
use fmms.Procurement.Values.{Quantity, Money}

pub data PrStatus : Type 0 where
  draft : PrStatus
  submitted : PrStatus
  approved : PrStatus
  rejected : PrStatus
  cancelled : PrStatus

unfoldable pub PrStatus-discrete : Discrete PrStatus
PrStatus-discrete = hlevel

-- `_PR_ALLOWED_TRANSITIONS`
unfoldable pub allowed_transitions : PrStatus → List PrStatus
allowed_transitions draft = submitted ∷ cancelled ∷ []
allowed_transitions submitted = approved ∷ rejected ∷ cancelled ∷ []
allowed_transitions approved = cancelled ∷ []
allowed_transitions rejected = draft ∷ cancelled ∷ []
allowed_transitions cancelled = []

-- `target in _PR_ALLOWED_TRANSITIONS.get(status, frozenset())`
unfoldable pub allows : PrStatus → PrStatus → Bool
unfolding PrStatus-discrete allowed_transitions
allows status target = member PrStatus-discrete target (allowed_transitions status)

pub record PrLineItem : Type 0 where
  pub id : Uuid
  pub material_number : Text
  pub quantity : Quantity
  pub description : Text
  pub estimated_price : Option Money

pub record PurchaseRequisition : Type 0 where
  pub id : Uuid
  pub repair_order_id : Uuid
  pub status : PrStatus
  pub requested_by_id : Uuid
  pub created_at : DateTime
  pub updated_at : DateTime
  pub line_items : List PrLineItem
  pub sap_pr_number : Option Text
  pub approved_by_id : Option Uuid
  pub material_request_id : Option Uuid

-- `ProcurementInvalidStateTransitionError`, and the same from `add_line_item`, whose target is a text.
pub data PrError : Type 0 where
  invalid_transition : PrStatus → PrStatus → PrError
  draft_required : PrStatus → PrError

unfoldable pub transition_to : PrStatus → Update PurchaseRequisition PrError
unfolding allows
transition_to target = do
  o ← get
  when (not (allows o.status target)) (raise (invalid_transition o.status target))
  modify (λ p. record p { status = target })

unfoldable pub add_line_item : PrLineItem → Update PurchaseRequisition PrError
unfolding PrStatus-discrete
add_line_item item = do
  r ← get
  when (not (is PrStatus-discrete r.status draft)) (raise (draft_required r.status))
  modify (λ s. record s { line_items = s.line_items ++ (item ∷ []) })

unfoldable pub submit : Update PurchaseRequisition PrError
unfolding transition_to
submit = transition_to submitted

unfoldable pub approve : Uuid → Update PurchaseRequisition PrError
unfolding transition_to
approve user = do transition_to approved; modify (λ r. record r { approved_by_id = some user })

unfoldable pub reject : Update PurchaseRequisition PrError
unfolding transition_to
reject = transition_to rejected

unfoldable pub link_sap_pr : Text → Update PurchaseRequisition PrError
link_sap_pr n = modify (λ r. record r { sap_pr_number = some n })

-- A call of a method, with its arguments. `transition` is `transition_to`, which services call too.
pub data Call : Type 0 where
  transition : PrStatus → Call
  add : PrLineItem → Call
  submit_it reject_it : Call
  approve_by : Uuid → Call
  link : Text → Call

unfoldable pub apply : Call → Update PurchaseRequisition PrError
unfolding transition_to add_line_item submit reject approve link_sap_pr
apply (transition s) = transition_to s
apply (add i) = add_line_item i
apply submit_it = submit
apply reject_it = reject
apply (approve_by u) = approve u
apply (link n) = link_sap_pr n

unfoldable pub run : List Call → PurchaseRequisition → PurchaseRequisition
run [] r = r
run (c ∷ cs) r = run cs (apply c r).1

-- The lines are settled: the requisition is approved or cancelled.
abbrev pub IsSettled : PrStatus → Type 0
IsSettled s = (s ≡ approved) ⊎ (s ≡ cancelled)

apply-IsSettled :
    (c : Call) (r : PurchaseRequisition)
    → IsSettled r.status
    → ((apply c r).1.line_items ≡ r.line_items) × IsSettled (apply c r).1.status
unfolding apply
apply-IsSettled submit_it r h = ground arith
apply-IsSettled _ r h = ground arith

-- An approved or cancelled requisition keeps its lines, whatever methods are called on it: no way
-- leads back to DRAFT, which alone accepts a line.
pub settled_lines :
    (cs : List Call) (r : PurchaseRequisition)
    → IsSettled r.status
    → (run cs r).line_items ≡ r.line_items
unfolding run
settled_lines [] r h = refl
settled_lines (c ∷ cs) r h =
    let (same, still) = apply-IsSettled c r h in settled_lines cs (apply c r).1 still ∙ same
