-- ===== src/Maintenance.antt =====
-- Preventive maintenance (apps/preventive_maintenance/domain/entities.py): the work order `PMWorkOrder`.
use fmms.Prelude.{
  ◌≡◌, Bool, not, Option, some, List, [], ◌∷◌, Uuid, DateTime, Text, member, ok, err, Update, ◌>>=◌,
  ◌>>◌, get, modify, raise, when, if◌then◌else◌, arith,
}
pub mod Plan
pub mod Services
pub mod OneActive
pub mod Requests
pub mod Examples

pub data PmWorkOrderStatus : Type 0 where
  scheduled : PmWorkOrderStatus
  triggered : PmWorkOrderStatus
  in_progress : PmWorkOrderStatus
  completed : PmWorkOrderStatus
  overdue : PmWorkOrderStatus
  cancelled : PmWorkOrderStatus

unfoldable pub PmWorkOrderStatus-discrete : Discrete PmWorkOrderStatus
PmWorkOrderStatus-discrete = hlevel

-- `_WO_ALLOWED_TRANSITIONS`
unfoldable pub allowed_transitions : PmWorkOrderStatus → List PmWorkOrderStatus
allowed_transitions scheduled = triggered ∷ cancelled ∷ overdue ∷ []
allowed_transitions triggered = in_progress ∷ cancelled ∷ overdue ∷ []
allowed_transitions in_progress = completed ∷ cancelled ∷ []
allowed_transitions completed = []
allowed_transitions overdue = in_progress ∷ cancelled ∷ []
allowed_transitions cancelled = []

-- `target in _WO_ALLOWED_TRANSITIONS.get(status, frozenset())`
unfoldable pub allows : PmWorkOrderStatus → PmWorkOrderStatus → Bool
unfolding PmWorkOrderStatus-discrete allowed_transitions
allows status target = member PmWorkOrderStatus-discrete target (allowed_transitions status)

pub record PmWorkOrder : Type 0 where
  pub id : Uuid
  pub plan_id : Uuid
  pub vehicle_id : Uuid
  pub status : PmWorkOrderStatus
  pub scheduled_date : DateTime
  pub created_at : DateTime
  pub updated_at : DateTime
  pub triggered_at : Option DateTime
  pub completed_at : Option DateTime
  pub notes : Option Text
  pub sap_order_number : Option Text

-- `PMInvalidStateTransitionError`
pub data PmError : Type 0 where
  invalid_transition : PmWorkOrderStatus → PmWorkOrderStatus → PmError

unfoldable pub transition_to : PmWorkOrderStatus → Update PmWorkOrder PmError
unfolding allows
transition_to target = do
  o ← get
  when (not (allows o.status target)) (raise (invalid_transition o.status target))
  modify (λ p. record p { status = target })

unfoldable pub trigger : DateTime → Update PmWorkOrder PmError
unfolding transition_to
trigger at = do transition_to triggered; modify (λ w. record w { triggered_at = some at })

unfoldable pub start : Update PmWorkOrder PmError
unfolding transition_to
start = transition_to in_progress

unfoldable pub complete : DateTime → Update PmWorkOrder PmError
unfolding transition_to
complete at = do transition_to completed; modify (λ w. record w { completed_at = some at })

unfoldable pub mark_overdue : Update PmWorkOrder PmError
unfolding transition_to
mark_overdue = transition_to overdue

unfoldable pub cancel : Update PmWorkOrder PmError
unfolding transition_to
cancel = transition_to cancelled

unfoldable pub is_terminal : PmWorkOrder → Bool
unfolding PmWorkOrderStatus-discrete
is_terminal w = member PmWorkOrderStatus-discrete w.status (completed ∷ cancelled ∷ [])

-- A work order can be cancelled exactly while it is not terminal; a refused cancellation changes
-- nothing, and an accepted one the status alone.
cancel_lem :
    (w : PmWorkOrder)
    → cancel w ≡ (
        if is_terminal w
        then (err (invalid_transition w.status cancelled), w)
        else (ok tt, record w { status = cancelled }))
unfolding cancel is_terminal
cancel_lem w = ground arith

-- A SCHEDULED order that is triggered, perhaps marked overdue, started and completed, in this order,
-- ends COMPLETED with no exception, and holds the two times that it was given.
completes :
    (late : Bool) (t c : DateTime) (w : PmWorkOrder)
    → w.status ≡ scheduled
    → let m = trigger t >> when late mark_overdue >> start >> complete c in
      ((m w).0 ≡ ok tt)
      × ((m w).1.status ≡ completed)
      × ((m w).1.triggered_at ≡ some t)
      × ((m w).1.completed_at ≡ some c)
unfolding trigger mark_overdue start complete
completes late t c w e = ground arith
