-- ===== src/Repair/Referral.antt =====
-- The permission to send a repair to an external workshop: `ExternalWorkshopReferralRequest`
-- (apps/repair/domain/entities.py).
use fmms.Prelude.{
  ◌≡◌, ◌≢◌, refl, not, Option, some, List, [], ◌∷◌, Uuid, DateTime, Text, member, ok, Update, ◌>>=◌,
  ◌>>◌, get, modify, raise, when, arith,
}

pub data ReferralStatus : Type 0 where
  requested approved rejected cancelled : ReferralStatus

unfoldable pub ReferralStatus-discrete : Discrete ReferralStatus
ReferralStatus-discrete = hlevel

-- `_EXTERNAL_REFERRAL_ALLOWED_TRANSITIONS`
unfoldable pub allowed_transitions : ReferralStatus → List ReferralStatus
allowed_transitions requested = approved ∷ rejected ∷ cancelled ∷ []
allowed_transitions approved = []
allowed_transitions rejected = []
allowed_transitions cancelled = []

pub record ReferralRequest : Type 0 where
  pub id : Uuid
  pub repair_order_id : Uuid
  pub vehicle_id : Uuid
  pub fault_id : Uuid
  pub status : ReferralStatus
  pub requested_by_id : Uuid
  pub requested_at : DateTime
  pub created_at : DateTime
  pub updated_at : DateTime
  pub workshop_id : Option Text
  pub reason : Text
  pub approved_by_id : Option Uuid
  pub approved_at : Option DateTime
  pub rejected_by_id : Option Uuid
  pub rejected_at : Option DateTime
  pub rejection_reason : Option Text

-- `RepairOrderInvalidStateTransitionError`
pub data ReferralError : Type 0 where
  invalid_transition : ReferralStatus → ReferralStatus → ReferralError

unfoldable pub transition_to : ReferralStatus → Update ReferralRequest ReferralError
unfolding allowed_transitions ReferralStatus-discrete
transition_to target = do
  r ← get
  when (not (member ReferralStatus-discrete target (allowed_transitions r.status)))
      (raise (invalid_transition r.status target))
  modify (λ s. record s { status = target })

unfoldable pub approve : Uuid → DateTime → Update ReferralRequest ReferralError
unfolding transition_to
approve user at = do
  transition_to approved
  modify (λ r. record r { approved_by_id = some user; approved_at = some at })

unfoldable pub reject : Uuid → DateTime → Text → Update ReferralRequest ReferralError
unfolding transition_to
reject user at text = do
  transition_to rejected
  modify (λ r. record r {
    rejected_by_id = some user;
    rejected_at = some at;
    rejection_reason = some text;
  })

-- A call of a method, with its arguments.
pub data Call : Type 0 where
  move : ReferralStatus → Call
  approve_by : Uuid → DateTime → Call
  reject_by : Uuid → DateTime → Text → Call

unfoldable pub apply : Call → Update ReferralRequest ReferralError
unfolding transition_to approve reject
apply (move s) = transition_to s
apply (approve_by u t) = approve u t
apply (reject_by u t x) = reject u t x

unfoldable pub run : List Call → ReferralRequest → ReferralRequest
run [] r = r
run (c ∷ cs) r = run cs (apply c r).1

apply_decided : (c : Call) (r : ReferralRequest) → r.status ≢ requested → (apply c r).1 ≡ r
unfolding apply
apply_decided (move s) r h = ground arith
apply_decided _ r h = ground arith

run_decided : (cs : List Call) (r : ReferralRequest) → r.status ≢ requested → run cs r ≡ r
unfolding run
run_decided [] r h = refl
run_decided (c ∷ cs) r h = rw (apply_decided c r h) (run_decided cs r h)

apply_accepted :
    (c : Call) (r : ReferralRequest) → (apply c r).0 ≡ ok tt → (apply c r).1.status ≢ requested
unfolding apply
apply_accepted (move s) r h = ground arith
apply_accepted _ r h = ground arith

-- A request is decided once: after a call that does not raise, whatever is called, the request stays
-- as that call left it.
pub decided_once :
    (c : Call) (cs : List Call) (r : ReferralRequest)
    → (apply c r).0 ≡ ok tt
    → run cs (apply c r).1 ≡ (apply c r).1
decided_once c cs r h = run_decided cs (apply c r).1 (apply_accepted c r h)
