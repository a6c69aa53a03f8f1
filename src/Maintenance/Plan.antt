-- ===== src/Maintenance/Plan.antt =====
-- The plan `PMPlan` (apps/preventive_maintenance/domain/entities.py) and its value objects
-- (apps/preventive_maintenance/domain/value_objects.py).
use fmms.Prelude.{
  ℕ, Bool, Option, some, Uuid, DateTime, Text, ℤ, pos, negsuc, suc, zero, is, Result, ok, err,
}

pub data PmPlanStatus : Type 0 where
  active inactive suspended : PmPlanStatus

unfoldable pub PmPlanStatus-discrete : Discrete PmPlanStatus
PmPlanStatus-discrete = hlevel

pub data IntervalUnit : Type 0 where
  days km hours : IntervalUnit

pub data TriggerType : Type 0 where
  time_based mileage_based hours_based : TriggerType

pub record MaintenanceInterval : Type 0 where
  pub value : ℕ
  pub unit : IntervalUnit

pub record TriggerCondition : Type 0 where
  pub trigger_type : TriggerType
  pub threshold : ℕ

-- The `ValueError`s of both.
pub data ValueError : Type 0 where
  bad_interval bad_threshold : ℤ → ValueError

-- `MaintenanceInterval(value=..., unit=...)`
unfoldable pub maintenance_interval : ℤ → IntervalUnit → Result ValueError MaintenanceInterval
maintenance_interval (pos zero) u = err (bad_interval (pos zero))
maintenance_interval (pos (suc n)) u = ok record { value = suc n; unit = u }
maintenance_interval (negsuc n) u = err (bad_interval (negsuc n))

-- `TriggerCondition(trigger_type=..., threshold=...)`
unfoldable pub trigger_condition : TriggerType → ℤ → Result ValueError TriggerCondition
trigger_condition k (pos zero) = err (bad_threshold (pos zero))
trigger_condition k (pos (suc n)) = ok record { trigger_type = k; threshold = suc n }
trigger_condition k (negsuc n) = err (bad_threshold (negsuc n))

pub record PmPlan : Type 0 where
  pub id : Uuid
  pub vehicle_id : Uuid
  pub name : Text
  pub description : Text
  pub interval : MaintenanceInterval
  pub trigger_condition : TriggerCondition
  pub status : PmPlanStatus
  pub created_by_id : Uuid
  pub created_at : DateTime
  pub updated_at : DateTime
  pub last_triggered_at : Option DateTime
  pub next_due_at : Option DateTime

unfoldable pub activate : PmPlan → PmPlan
activate p = record p { status = active }

unfoldable pub suspend : PmPlan → PmPlan
suspend p = record p { status = suspended }

unfoldable pub deactivate : PmPlan → PmPlan
deactivate p = record p { status = inactive }

unfoldable pub record_trigger : DateTime → PmPlan → PmPlan
record_trigger at p = record p { last_triggered_at = some at }

unfoldable pub is_active : PmPlan → Bool
unfolding PmPlanStatus-discrete
is_active p = is PmPlanStatus-discrete p.status active
