-- ===== src/Fault/Entity.antt =====
-- The aggregate `Fault` (apps/fault/domain/entities.py): its record and its methods. The code, the
-- description and the defect code are the texts of their value objects.
use fmms.Prelude.{
  Bool, not, Option, some, List, [], ◌∷◌, Uuid, DateTime, Text, is, member, Update, ◌>>=◌, ◌>>◌,
  get, modify, raise, when,
}
use fmms.Fault.Status.{
  FaultStatus, awaiting_transport, assigned, in_repair, closed, FaultStatus-discrete, FaultSeverity,
  critical, FaultSeverity-discrete, allows,
}

pub record FaultItem : Type 0 where
  pub id : Uuid
  pub fault_id : Uuid
  pub component : Text
  pub description : Text
  pub severity : FaultSeverity
  pub created_at : DateTime
  pub updated_at : DateTime
  pub inspection_item_id : Option Uuid

pub record Fault : Type 0 where
  pub id : Uuid
  pub vehicle_id : Uuid
  pub code : Text
  pub description : Text
  pub severity : FaultSeverity
  pub status : FaultStatus
  pub reported_by_id : Uuid
  pub reported_at : DateTime
  pub created_at : DateTime
  pub updated_at : DateTime
  pub inspection_id : Option Uuid
  pub sap_defect_code : Option Text
  pub sap_notification_number : Option Text
  pub assigned_to_id : Option Uuid
  pub distribution_decision_note : Option Text
  pub items : List FaultItem

-- `FaultAlreadyClosedError` and `FaultInvalidStateTransitionError`
pub data FaultError : Type 0 where
  already_closed : Uuid → FaultError
  invalid_transition : FaultStatus → FaultStatus → FaultError

abbrev pub status_is : FaultStatus → Fault → Bool
status_is s f = is FaultStatus-discrete f.status s

unfoldable pub transition_to : FaultStatus → Update Fault FaultError
transition_to target = do
  f ← get
  when (status_is closed f) (raise (already_closed f.id))
  when (not (allows f.status target)) (raise (invalid_transition f.status target))
  modify (λ g. record g { status = target })

unfoldable pub mark_awaiting_transport : Update Fault FaultError
unfolding transition_to
mark_awaiting_transport = transition_to awaiting_transport

unfoldable pub assign : Uuid → Update Fault FaultError
unfolding transition_to
assign technician_id = do
  transition_to assigned
  modify (λ f. record f { assigned_to_id = some technician_id })

unfoldable pub start_repair : Update Fault FaultError
unfolding transition_to
start_repair = transition_to in_repair

unfoldable pub close : Update Fault FaultError
unfolding transition_to
close = transition_to closed

unfoldable pub link_sap_notification : Text → Update Fault FaultError
link_sap_notification n = modify (λ f. record f { sap_notification_number = some n })

unfoldable pub is_critical : Fault → Bool
is_critical f = is FaultSeverity-discrete f.severity critical

unfoldable pub is_open : Fault → Bool
is_open f = not (status_is closed f)

-- `_close_open_fault` (apps/repair/application/services/transport_handover_decision_service.py)
unfoldable pub close_open_fault : Update Fault FaultError
unfolding start_repair close
close_open_fault = do
  f ← get
  when (member FaultStatus-discrete f.status (assigned ∷ awaiting_transport ∷ [])) start_repair
  close
