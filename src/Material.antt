-- ===== src/Material.antt =====
-- The aggregate `MaterialRequest` (apps/material/domain/entities.py).
use fmms.Prelude.{
  Bool, not, Option, List, [], ◌∷◌, Uuid, DateTime, Text, Decimal, member, Update, ◌>>=◌, ◌>>◌, get,
  modify, raise, when,
}

pub data MaterialRequestStatus : Type 0 where
  requested approved rejected waiting_stock stock_issued : MaterialRequestStatus
  purchase_required partially_issued received : MaterialRequestStatus

unfoldable pub MaterialRequestStatus-discrete : Discrete MaterialRequestStatus
MaterialRequestStatus-discrete = hlevel

pub data MaterialItemDecision : Type 0 where
  pending from_stock purchase : MaterialItemDecision

unfoldable pub MaterialItemDecision-discrete : Discrete MaterialItemDecision
MaterialItemDecision-discrete = hlevel

pub data MaterialItemStatus : Type 0 where
  waiting ready to_purchase : MaterialItemStatus

unfoldable pub MaterialItemStatus-discrete : Discrete MaterialItemStatus
MaterialItemStatus-discrete = hlevel

-- `_ALLOWED_TRANSITIONS`
unfoldable pub allowed_transitions : MaterialRequestStatus → List MaterialRequestStatus
allowed_transitions requested = approved ∷ []
allowed_transitions approved =
    waiting_stock ∷ stock_issued ∷ purchase_required ∷ partially_issued ∷ []
allowed_transitions rejected = []
allowed_transitions waiting_stock = stock_issued ∷ purchase_required ∷ partially_issued ∷ []
allowed_transitions stock_issued = received ∷ []
allowed_transitions purchase_required = waiting_stock ∷ stock_issued ∷ partially_issued ∷ []
allowed_transitions partially_issued = stock_issued ∷ []
allowed_transitions received = []

pub record MaterialRequestItem : Type 0 where
  pub id : Uuid
  pub material_number : Text
  pub quantity : Decimal
  pub unit_of_measure : Text
  pub from_catalog : Bool
  pub decision : MaterialItemDecision
  pub item_status : MaterialItemStatus
  pub available_quantity_snapshot : Option Decimal

pub record MaterialRequest : Type 0 where
  pub id : Uuid
  pub repair_order_id : Uuid
  pub status : MaterialRequestStatus
  pub created_by_id : Uuid
  pub created_at : DateTime
  pub updated_at : DateTime
  pub items : List MaterialRequestItem

-- `MaterialRequestInvalidStateError`
pub data MaterialError : Type 0 where
  invalid_state : MaterialRequestStatus → MaterialRequestStatus → MaterialError

unfoldable pub transition_to : MaterialRequestStatus → Update MaterialRequest MaterialError
unfolding allowed_transitions MaterialRequestStatus-discrete
transition_to target = do
  r ← get
  when (not (member MaterialRequestStatus-discrete target (allowed_transitions r.status)))
      (raise (invalid_state r.status target))
  modify (λ s. record s { status = target })

unfoldable pub approve : Update MaterialRequest MaterialError
unfolding transition_to
approve = transition_to approved

unfoldable pub receive : Update MaterialRequest MaterialError
unfolding transition_to
receive = transition_to received
