-- ===== src/Repair/Status.antt =====
-- The statuses of a repair order and the tables over them (apps/repair/domain/entities.py).
use fmms.Prelude.{Bool, List, [], ◌∷◌, member}

pub data RepairOrderStatus : Type 0 where
  created : RepairOrderStatus
  approved : RepairOrderStatus
  workshop_assigned : RepairOrderStatus
  waiting_external_referral_approval : RepairOrderStatus
  waiting_external_delivery : RepairOrderStatus
  external_repair_in_progress : RepairOrderStatus
  waiting_external_pickup : RepairOrderStatus
  waiting_external_admin_review : RepairOrderStatus
  waiting_workshop_confirmation : RepairOrderStatus
  waiting_parts : RepairOrderStatus
  assigned : RepairOrderStatus
  in_progress : RepairOrderStatus
  waiting_driver_confirmation : RepairOrderStatus
  waiting_transport_final_approval : RepairOrderStatus
  accepted_by_driver : RepairOrderStatus
  rejected_by_driver : RepairOrderStatus
  rejected_by_transport : RepairOrderStatus
  no_repair_needed : RepairOrderStatus
  completed : RepairOrderStatus
  cancelled : RepairOrderStatus

unfoldable pub RepairOrderStatus-discrete : Discrete RepairOrderStatus
RepairOrderStatus-discrete = hlevel

pub data WorkshopType : Type 0 where
  internal external : WorkshopType

unfoldable pub WorkshopType-discrete : Discrete WorkshopType
WorkshopType-discrete = hlevel

-- `_ALLOWED_TRANSITIONS`
unfoldable pub allowed_transitions : RepairOrderStatus → List RepairOrderStatus
allowed_transitions created = approved ∷ assigned ∷ cancelled ∷ []
allowed_transitions approved =
    workshop_assigned ∷ waiting_external_referral_approval ∷ waiting_external_delivery ∷ cancelled
    ∷ []
allowed_transitions waiting_external_referral_approval =
    waiting_driver_confirmation ∷ waiting_external_delivery ∷ cancelled ∷ []
allowed_transitions waiting_external_delivery =
    external_repair_in_progress ∷ waiting_external_delivery ∷ cancelled ∷ []
allowed_transitions external_repair_in_progress = waiting_external_pickup ∷ cancelled ∷ []
allowed_transitions waiting_external_pickup = waiting_external_admin_review ∷ cancelled ∷ []
allowed_transitions waiting_external_admin_review = completed ∷ cancelled ∷ []
allowed_transitions workshop_assigned =
    assigned ∷ waiting_workshop_confirmation ∷ in_progress ∷ no_repair_needed
    ∷ waiting_driver_confirmation ∷ cancelled ∷ []
allowed_transitions waiting_workshop_confirmation = in_progress ∷ no_repair_needed ∷ cancelled ∷ []
allowed_transitions waiting_parts = in_progress ∷ cancelled ∷ []
allowed_transitions assigned = in_progress ∷ created ∷ cancelled ∷ []
allowed_transitions in_progress =
    completed ∷ waiting_parts ∷ waiting_driver_confirmation ∷ cancelled ∷ []
allowed_transitions waiting_driver_confirmation =
    waiting_transport_final_approval ∷ accepted_by_driver ∷ rejected_by_driver ∷ []
allowed_transitions waiting_transport_final_approval = completed ∷ cancelled ∷ []
allowed_transitions accepted_by_driver = completed ∷ []
allowed_transitions rejected_by_driver = []
allowed_transitions rejected_by_transport = []
allowed_transitions no_repair_needed = []
allowed_transitions completed = []
allowed_transitions cancelled = []

-- `_MUTABLE_STATUSES`
unfoldable pub mutable_statuses : List RepairOrderStatus
mutable_statuses =
    created ∷ approved ∷ workshop_assigned ∷ waiting_external_referral_approval
    ∷ waiting_external_delivery ∷ external_repair_in_progress ∷ waiting_external_pickup
    ∷ waiting_external_admin_review ∷ waiting_workshop_confirmation ∷ waiting_parts ∷ assigned
    ∷ in_progress ∷ []

-- `_TERMINAL_STATUSES`
unfoldable pub terminal_statuses : List RepairOrderStatus
terminal_statuses =
    completed ∷ cancelled ∷ rejected_by_driver ∷ rejected_by_transport ∷ no_repair_needed ∷ []

unfoldable pub is_mutable : RepairOrderStatus → Bool
unfolding RepairOrderStatus-discrete mutable_statuses
is_mutable s = member RepairOrderStatus-discrete s mutable_statuses

unfoldable pub is_terminal : RepairOrderStatus → Bool
unfolding RepairOrderStatus-discrete terminal_statuses
is_terminal s = member RepairOrderStatus-discrete s terminal_statuses

-- `target in _ALLOWED_TRANSITIONS.get(status, frozenset())`
unfoldable pub allows : RepairOrderStatus → RepairOrderStatus → Bool
unfolding RepairOrderStatus-discrete allowed_transitions
allows status target = member RepairOrderStatus-discrete target (allowed_transitions status)
