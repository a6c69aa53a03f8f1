-- ===== src/Workflow/Settled.antt =====
-- What the decisions on parts mean for the items and for the request, apart from the service.
use fmms.Prelude.{
  ◌≡◌, ◌∙◌, refl, true, ◌≢◌, ◌⊎◌, ◌↔◌, inl, inr, ◌==◌, Bool-cases, if◌then◌else◌, Option, none,
  some, List, [], ◌∷◌, Uuid, All, is, arith,
}
use fmms.Material
use fmms.Material.{
  MaterialRequest, MaterialRequestItem, MaterialRequestStatus, MaterialItemDecision,
  MaterialItemDecision-discrete, MaterialRequestStatus-discrete, from_stock, purchase, pending,
  MaterialItemStatus, ready, to_purchase, waiting,
}
use fmms.Workflow.Parts.{ItemDecision, decision_on, header_status, all_decide}

-- The decision that was sent last for an item.
unfoldable pub last_sent :
    Uuid → Option MaterialItemDecision → List ItemDecision → Option MaterialItemDecision
last_sent i o [] = o
last_sent i o (d ∷ ds) = last_sent i (if d.item_id == i then some d.decision else o) ds

pub last_or :
    Option MaterialItemDecision → Option MaterialItemDecision → Option MaterialItemDecision
last_or (some d) o = some d
last_or none o = o

pub last_sent-decision_on :
    (i : Uuid) (o : Option MaterialItemDecision) (ds : List ItemDecision)
    → last_sent i o ds ≡ last_or (decision_on i ds) o
unfolding last_sent decision_on last_or
last_sent-decision_on i o [] = refl
last_sent-decision_on i o (d ∷ ds) =
    last_sent-decision_on i (if d.item_id == i then some d.decision else o) ds ∙ ground arith

pub sent_decision : (i : Uuid) (ds : List ItemDecision) → last_sent i none ds ≡ decision_on i ds
unfolding last_or
sent_decision i ds = last_sent-decision_on i none ds ∙ same (decision_on i ds)
  where
    same : (o : Option MaterialItemDecision) → last_or o none ≡ o
    same none = refl
    same (some d) = refl

-- The status of an item by its decision.
abbrev pub status_for : MaterialItemDecision → MaterialItemStatus
status_for from_stock = ready
status_for _ = to_purchase

-- An item without what a decision writes.
abbrev pub undecided : MaterialRequestItem → MaterialRequestItem
undecided i = record i {
  decision = pending;
  item_status = waiting;
  available_quantity_snapshot = none;
}

-- The status of a request by its items: STOCK_ISSUED where all are to come from stock,
-- PURCHASE_REQUIRED where all are to be purchased, PARTIALLY_ISSUED where there are both or none.
abbrev pub HasStatus : MaterialRequestStatus → List MaterialRequestItem → Type 0
HasStatus s l =
    ((s ≡ Material.stock_issued)
      × (l ≢ [])
      × All (λ (i : MaterialRequestItem). i.decision ≡ from_stock) l)
    ⊎ ((s ≡ Material.purchase_required)
        × (l ≢ [])
        × All (λ (i : MaterialRequestItem). i.decision ≡ purchase) l)
    ⊎ ((s ≡ Material.partially_issued)
        × ((l ≡ [])
            ⊎ ((¬ All (λ (i : MaterialRequestItem). i.decision ≡ from_stock) l)
                × (¬ All (λ (i : MaterialRequestItem). i.decision ≡ purchase) l))))

pub decision-is :
    (a b : MaterialItemDecision) → (is MaterialItemDecision-discrete a b ≡ true) ↔ (a ≡ b)
unfolding MaterialItemDecision-discrete
decision-is a b = (λ h. ground arith, λ h. ground arith)

pub all_decide-All :
    (d : MaterialItemDecision) (l : List MaterialRequestItem)
    → (all_decide d l ≡ true) ↔ All (λ (i : MaterialRequestItem). i.decision ≡ d) l
unfolding all_decide
all_decide-All d [] = (λ _. tt, λ _. refl)
all_decide-All d (i ∷ l) =
    let (f, g) = all_decide-All d l in
    let (p, q) = decision-is i.decision d in
    (λ h. (p (ground arith), f (ground arith)), λ (e, es). ground (arith, q e, g es))

pub header_status-HasStatus : (l : List MaterialRequestItem) → HasStatus (header_status l) l
unfolding header_status
header_status-HasStatus [] = inr (inr (refl, inl refl))
header_status-HasStatus (i ∷ l) =
    let (f, g) = all_decide-All from_stock (i ∷ l) in
    let (p, q) = all_decide-All purchase (i ∷ l) in
    elim (Bool-cases (all_decide from_stock (i ∷ l))) [
      | inl e ↦ rw e (inl (refl, λ n. cc, f e))
      | inr e ↦ elim (Bool-cases (all_decide purchase (i ∷ l))) [
        | inl u ↦ rw (e, u) (inr (inl (refl, λ n. cc, p u)))
        | inr u ↦ rw (e, u) (inr (inr (refl, inr (λ a. cc (g a, e), λ a. cc (q a, u)))))
      ]
    ]
