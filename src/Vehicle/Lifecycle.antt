-- ===== src/Vehicle/Lifecycle.antt =====
-- The calls of the methods of `Vehicle`, and what they leave behind.
use fmms.Prelude.{
  ◌≡◌, ◌≢◌, ◌⊎◌, inl, inr, refl, true, false, not, List, [], ◌∷◌, is, ok, err, Update, ◌>>=◌, get,
  when, Bool-cases, arith,
}
use fmms.Vehicle.Status.{
  VehicleStatus, active, under_repair, decommissioned, VehicleStatus-discrete, allows,
}
use fmms.Vehicle.Entity
use fmms.Vehicle.Entity.{
  Vehicle, VehicleError, transition_to, activate, mark_under_repair, is_available,
}

-- Every method is a transition to its target.
unfoldable pub run : List VehicleStatus → Vehicle → Vehicle
run [] v = v
run (t ∷ ts) v = run ts (transition_to t v).1

-- A transition either is allowed and changes the status alone, or raises and changes nothing.
pub transition_to_lem :
    (t : VehicleStatus) (v : Vehicle)
    → ((allows v.status t ≡ true) × (transition_to t v ≡ (ok tt, record v { status = t })))
      ⊎ ((allows v.status t ≡ false)
          × ((transition_to t v).1 ≡ v)
          × ((transition_to t v).0 ≡ err (Entity.invalid_transition v.status t)))
unfolding transition_to
transition_to_lem t v = elim (Bool-cases (allows v.status t)) [
  | inl e ↦ inl (e, rw e refl)
  | inr e ↦ inr (e, rw e refl, rw e refl)
]

-- Transport and the drivers run `if vehicle.status != ACTIVE: vehicle.activate()`.
unfoldable pub activate_unless_active : Update Vehicle VehicleError
activate_unless_active = do v ← get; when (not (is VehicleStatus-discrete v.status active)) activate

-- `if vehicle.status != UNDER_REPAIR: vehicle.mark_under_repair()`
unfoldable pub repair_unless_under_repair : Update Vehicle VehicleError
repair_unless_under_repair = do
  v ← get
  when (not (is VehicleStatus-discrete v.status under_repair)) mark_under_repair

-- `activate_unless_active` raises for a decommissioned vehicle, which it does not change, and makes
-- any other active, changing the status alone.
activate_unless_active_lem :
    (v : Vehicle)
    → ((v.status ≡ decommissioned)
        × ((activate_unless_active v).1 ≡ v)
        × ((activate_unless_active v).0 ≡ err (Entity.invalid_transition decommissioned active)))
      ⊎ ((v.status ≢ decommissioned)
          × (activate_unless_active v ≡ (ok tt, record v { status = active })))
unfolding activate_unless_active activate allows
activate_unless_active_lem v = ground arith

-- `repair_unless_under_repair` changes nothing of a decommissioned vehicle, and puts any other under
-- repair without raising, changing the status alone.
repair_unless_under_repair_lem :
    (v : Vehicle)
    → ((v.status ≡ decommissioned) × ((repair_unless_under_repair v).1 ≡ v))
      ⊎ ((v.status ≢ decommissioned)
          × (repair_unless_under_repair v ≡ (ok tt, record v { status = under_repair })))
unfolding repair_unless_under_repair mark_under_repair allows
repair_unless_under_repair_lem v = ground arith

decommissioned-transition_to :
    (t : VehicleStatus) (v : Vehicle) → v.status ≡ decommissioned → (transition_to t v).1 ≡ v
unfolding transition_to allows
decommissioned-transition_to t v e = ground arith

-- A decommissioned vehicle is never brought back: whatever is called on it, it stays as it is.
pub decommissioned_final :
    (ts : List VehicleStatus) (v : Vehicle) → v.status ≡ decommissioned → run ts v ≡ v
unfolding run
decommissioned_final [] v e = refl
decommissioned_final (t ∷ ts) v e =
    rw (decommissioned-transition_to t v e) (decommissioned_final ts v e)
