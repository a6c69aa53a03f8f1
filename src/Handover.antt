-- ===== src/Handover.antt =====
-- The aggregate `VehicleHandover` (apps/handover/domain/entities.py).
use fmms.Prelude.{
  ◌≡◌, Bool, not, Option, none, some, Uuid, DateTime, Text, is, ok, err, Update, ◌>>=◌, ◌>>◌, get,
  modify, raise, when, if◌then◌else◌, arith,
}
pub mod Examples

pub data VehicleHandoverStatus : Type 0 where
  waiting_driver_confirmation accepted rejected : VehicleHandoverStatus

unfoldable pub VehicleHandoverStatus-discrete : Discrete VehicleHandoverStatus
VehicleHandoverStatus-discrete = hlevel

pub record VehicleHandover : Type 0 where
  pub id : Uuid
  pub repair_order_id : Uuid
  pub vehicle_id : Uuid
  pub status : VehicleHandoverStatus
  pub created_at : DateTime
  pub updated_at : DateTime
  pub driver_id : Option Uuid
  pub comment : Option Text
  pub confirmed_at : Option DateTime

-- `VehicleHandoverInvalidStateError`
pub data HandoverError : Type 0 where
  invalid_state : VehicleHandoverStatus → VehicleHandoverStatus → HandoverError

-- The status of a decision.
abbrev pub decided : Bool → VehicleHandoverStatus
decided accept = if accept then accepted else rejected

-- `if driver_id is not None: self.driver_id = driver_id`
abbrev pub or_kept : Option Uuid → Option Uuid → Option Uuid
or_kept (some d) old = some d
or_kept none old = old

unfoldable pub confirm :
    Bool → Option Text → Option DateTime → Option Uuid → Update VehicleHandover HandoverError
confirm accept note at driver = do
  h ← get
  when (not (is VehicleHandoverStatus-discrete h.status waiting_driver_confirmation))
      (raise (invalid_state h.status (decided accept)))
  modify (λ k. record k {
    status = decided accept;
    comment = note;
    confirmed_at = at;
    driver_id = or_kept driver k.driver_id;
  })

-- A driver decides once. The first decision on a waiting handover is stored with its comment, its
-- time and, if given, the driver, and every later one raises and changes nothing.
pub confirm_once :
    (b c : Bool) (n m : Option Text) (t u : Option DateTime) (d e : Option Uuid)
    (h : VehicleHandover)
    → h.status ≡ waiting_driver_confirmation
    → let k = (confirm b n t d h).1 in
      ((confirm b n t d h).0 ≡ ok tt)
      × (k.status ≡ decided b)
      × (k.comment ≡ n)
      × (k.confirmed_at ≡ t)
      × (k.driver_id ≡ or_kept d h.driver_id)
      × (confirm c m u e k ≡ (err (invalid_state (decided b) (decided c)), k))
unfolding confirm
confirm_once b c n m t u d e h w = ground arith
