-- ===== src/Fault/Lifecycle.antt =====
-- The calls of the methods of `Fault`, and what they leave behind.
use fmms.Prelude.{◌≡◌, ◌≢◌, refl, List, [], ◌∷◌, Uuid, Text, ok, Update, ap, ◌∙◌, arith}
use fmms.Fault.Status.{FaultStatus, closed, allows}
use fmms.Fault.Entity
use fmms.Fault.Entity.{Fault, FaultError, close_open_fault}

-- A call of a method, with its arguments.
pub data Call : Type 0 where
  transition_to : FaultStatus → Call
  mark_awaiting_transport start_repair close : Call
  assign : Uuid → Call
  link_sap_notification : Text → Call

unfoldable pub apply : Call → Update Fault FaultError
unfolding Entity.transition_to Entity.mark_awaiting_transport Entity.start_repair Entity.close
    Entity.assign Entity.link_sap_notification
apply (transition_to s) = Entity.transition_to s
apply mark_awaiting_transport = Entity.mark_awaiting_transport
apply start_repair = Entity.start_repair
apply close = Entity.close
apply (assign t) = Entity.assign t
apply (link_sap_notification n) = Entity.link_sap_notification n

-- The fault after the calls, raising or not.
unfoldable pub run : List Call → Fault → Fault
run [] f = f
run (c ∷ cs) f = run cs (apply c f).1

-- Everything but the link to the SAP notification.
abbrev pub SameFault : Fault → Fault → Type 0
SameFault f g = g ≡ record f { sap_notification_number = g.sap_notification_number }

apply-closed : (c : Call) (f : Fault) → f.status ≡ closed → SameFault f (apply c f).1
unfolding apply
apply-closed close f e = ground arith
apply-closed _ f e = ground arith

-- A closed fault is never reopened: whatever methods are called on it, it changes only its link to
-- the SAP notification.
pub closed_final : (cs : List Call) (f : Fault) → f.status ≡ closed → SameFault f (run cs f)
unfolding run
closed_final [] f e = refl
closed_final (c ∷ cs) f e =
    let same = apply-closed c f e in
    let later = closed_final cs (apply c f).1 (ap (λ (g : Fault). g.status) same ∙ e) in
    later
    ∙ ap
        (λ (g : Fault). record g {
          sap_notification_number = (run cs (apply c f).1).sap_notification_number;
        })
        same

-- Closing a fault after a repair succeeds from every status but CLOSED, and changes the status alone.
pub close_open_fault_lem :
    (f : Fault) → f.status ≢ closed → close_open_fault f ≡ (ok tt, record f { status = closed })
unfolding close_open_fault allows
close_open_fault_lem f h = ground arith
