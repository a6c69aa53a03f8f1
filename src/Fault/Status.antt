-- ===== src/Fault/Status.antt =====
-- The statuses of a fault, and its severities (apps/fault/domain).
use fmms.Prelude.{Bool, List, [], ◌∷◌, member}

-- `opened` is OPEN.
pub data FaultStatus : Type 0 where
  opened : FaultStatus
  awaiting_transport : FaultStatus
  assigned : FaultStatus
  in_repair : FaultStatus
  closed : FaultStatus

unfoldable pub FaultStatus-discrete : Discrete FaultStatus
FaultStatus-discrete = hlevel

-- `_ALLOWED_TRANSITIONS`
unfoldable pub allowed_transitions : FaultStatus → List FaultStatus
allowed_transitions opened = awaiting_transport ∷ closed ∷ []
allowed_transitions awaiting_transport = assigned ∷ opened ∷ in_repair ∷ closed ∷ []
allowed_transitions assigned = in_repair ∷ opened ∷ []
allowed_transitions in_repair = closed ∷ []
allowed_transitions closed = []

-- `target in _ALLOWED_TRANSITIONS.get(status, frozenset())`
unfoldable pub allows : FaultStatus → FaultStatus → Bool
unfolding FaultStatus-discrete allowed_transitions
allows status target = member FaultStatus-discrete target (allowed_transitions status)

pub data FaultSeverity : Type 0 where
  critical high medium low : FaultSeverity

unfoldable pub FaultSeverity-discrete : Discrete FaultSeverity
FaultSeverity-discrete = hlevel
