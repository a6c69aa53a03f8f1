-- ===== src/Driver.antt =====
-- The aggregate `Driver` (apps/driver/domain/entities.py), and the query by personnel number
-- (apps/driver/infrastructure/repositories.py).
use fmms.Prelude.{
  Bool, not, ◌&&◌, Option, none, some, List, [], ◌∷◌, Uuid, DateTime, Text, Text-discrete,
  text_truthy, ltb, is, member, Update, ◌>>=◌, ◌>>◌, get, modify, raise, when, strip, if◌then◌else◌,
}

pub data DriverStatus : Type 0 where
  active decommissioned : DriverStatus

unfoldable pub DriverStatus-discrete : Discrete DriverStatus
DriverStatus-discrete = hlevel

-- `_ALLOWED_TRANSITIONS`
unfoldable pub allowed_transitions : DriverStatus → List DriverStatus
allowed_transitions active = decommissioned ∷ []
allowed_transitions decommissioned = active ∷ []

pub record Driver : Type 0 where
  pub id : Uuid
  pub customer_number : Text
  pub name : Text
  pub status : DriverStatus
  pub created_at : DateTime
  pub updated_at : DateTime
  pub mobile : Option Text
  pub personnel_number : Option Text
  pub gender : Option Text
  pub nilofar_code : Option Text

-- `DriverInvalidStateTransitionError`
pub data DriverError : Type 0 where
  invalid_transition : DriverStatus → DriverStatus → DriverError

unfoldable pub transition_to : DriverStatus → Update Driver DriverError
unfolding allowed_transitions DriverStatus-discrete
transition_to target = do
  d ← get
  when (not (member DriverStatus-discrete target (allowed_transitions d.status)))
      (raise (invalid_transition d.status target))
  modify (λ e. record e { status = target })

unfoldable pub reactivate : Update Driver DriverError
unfolding transition_to
reactivate = transition_to active

unfoldable pub decommission : Update Driver DriverError
unfolding transition_to
decommission = transition_to decommissioned

abbrev pub has_number : Text → Option Text → Bool
has_number needle none = is Text-discrete needle []
has_number needle (some n) = is Text-discrete needle n

-- The driver who was created earlier, the first one if they were created at once.
abbrev pub earlier : Driver → Option Driver → Option Driver
earlier d none = some d
earlier d (some e) = if ltb e.created_at d.created_at then some e else some d

-- The query of `find_by_personnel_number`.
unfoldable pub first_active : Text → List Driver → Option Driver
unfolding Text-discrete DriverStatus-discrete
first_active needle [] = none
first_active needle (d ∷ l) =
    let rest = first_active needle l in
    if has_number needle d.personnel_number && is DriverStatus-discrete d.status active
    then earlier d rest
    else rest

-- `find_by_personnel_number`
unfoldable pub find_by_personnel_number : Text → List Driver → Option Driver
unfolding first_active
find_by_personnel_number number drivers =
    let needle = strip number in if text_truthy needle then first_active needle drivers else none
