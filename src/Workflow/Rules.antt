-- ===== src/Workflow/Rules.antt =====
-- Rules for what a service does to the table of repair orders.
use fmms.Prelude.{
  ◌≡◌, ◌≤◌, ap, refl, ◌∙◌, Bool, false, not, ◌&&◌, Option, none, some, List, ◌==◌, Uuid, Update,
  ◌>>=◌, pure, raise, when, if◌then◌else◌, Post, Post-bind, Bool-cases, inl, inr,
}
use fmms.Repair.Status.{is_terminal}
use fmms.Repair.Order.{RepairOrder}
use fmms.Workflow.Frame.{
  Still, Still-pure, Still-raise, Still-if, Still-bind, Still-then, Still-when, Still-Holds, Holds,
  Holds-if, Holds-bind, Holds-when, Holds-atomic,
}
use fmms.Workflow.Table.{Row, count, row_of, visible, row_of-id}
use fmms.Workflow.Database.{
  Database, ServiceError, Call, atomic, order_missing, required, order_id, load_order,
}

-- A row that stands for an order of the fault that has not ended.
abbrev pub is_unfinished : Uuid → Row RepairOrder → Bool
is_unfinished f r =
    (r.entity.fault_id == f) && not r.is_deleted && not (is_terminal r.entity.status)

-- Each fault has one order at most that has not ended.
unfoldable pub OneOrder : List (Row RepairOrder) → Type 0
OneOrder rows = (f : Uuid) → count (is_unfinished f) rows ≤ 1

abbrev pub orders_of : Database → List (Row RepairOrder)
orders_of db = db.orders

-- The service leaves the table of the orders as it is.
abbrev pub Quiet : {A : Type 0} → Call A → Type 0
Quiet m = Still orders_of m

-- From orders with the rule and P the service leads to orders with the rule, whether it returns or
-- raises.
abbrev pub Keeps : {A : Type 0} → (List (Row RepairOrder) → Type 0) → Call A → Type 0
Keeps P m = Holds orders_of OneOrder P m

-- The rule holds, and o has the fault and the status that its row has.
abbrev pub Loaded : RepairOrder → List (Row RepairOrder) → Type 0
Loaded o rows =
    OneOrder rows
    × ((r : Row RepairOrder) × (row_of order_id o.id rows ≡ some r)
        × (r.is_deleted ≡ false)
        × (r.entity.fault_id ≡ o.fault_id)
        × (r.entity.status ≡ o.status))

-- The rule holds, and the fault has no order that has not ended.
abbrev pub Cleared : Uuid → List (Row RepairOrder) → Type 0
Cleared f rows = OneOrder rows × (count (is_unfinished f) rows ≡ 0)

module _ {A : Type 0} where
  pub Quiet-pure : (a : A) → Quiet (pure a)
  Quiet-pure a = Still-pure a

  pub Quiet-raise : (e : ServiceError) → Quiet (raise {A = A} e)
  Quiet-raise e = Still-raise e

  pub Quiet-if : (b : Bool) (m n : Call A) → Quiet m → Quiet n → Quiet (if b then m else n)
  Quiet-if = Still-if

  pub Keeps-if :
      {P : List (Row RepairOrder) → Type 0} (b : Bool) (m n : Call A)
      → Keeps P m
      → Keeps P n
      → Keeps P (if b then m else n)
  Keeps-if = Holds-if

  pub Quiet-Keeps : {m : Call A} → Quiet m → Keeps OneOrder m
  Quiet-Keeps = Still-Holds

module _ {A B : Type 0} {m : Call A} {k : A → Call B} where
  pub Quiet-bind : Quiet m → ((a : A) → Quiet (k a)) → Quiet (m >>= k)
  Quiet-bind = Still-bind

  pub Keeps-bind :
      {P : List (Row RepairOrder) → Type 0}
      → Keeps P m
      → ((a : A) → Keeps OneOrder (k a))
      → Keeps P (m >>= k)
  Keeps-bind = Holds-bind

  pub Quiet-then :
      {P : List (Row RepairOrder) → Type 0}
      → Quiet m
      → ((a : A) → Keeps P (k a))
      → Keeps P (m >>= k)
  Quiet-then = Still-then

pub Quiet-when : (b : Bool) (m : Update Database ServiceError) → Quiet m → Quiet (when b m)
Quiet-when = Still-when

pub Keeps-when :
    (b : Bool) (m : Update Database ServiceError) → Keeps OneOrder m → Keeps OneOrder (when b m)
Keeps-when = Holds-when

pub Keeps-atomic : {A : Type 0} {m : Call A} → Keeps OneOrder m → Keeps OneOrder (atomic m)
Keeps-atomic = Holds-atomic

-- What `get_by_id` makes of the row that it finds.
found_Loaded :
    (i : Uuid) (db : Database)
    → OneOrder db.orders
    → (r : Option (Row RepairOrder)) → row_of order_id i db.orders ≡ r
    → Post
        (λ (d : Database). OneOrder d.orders)
        (λ o (d : Database). Loaded o d.orders)
        (required (order_missing i) (visible r) db)
found_Loaded i db one none e = one
found_Loaded i db one (some r) e = elim (Bool-cases r.is_deleted) [
  | inl d ↦ rw d one
  | inr d ↦ rw d (
    one,
    (
      r,
      ap (λ j. row_of order_id j db.orders) (row_of-id order_id i db.orders e) ∙ e,
      d,
      refl,
      refl,
    ),
  )
]

-- The order that a service loads is the one in the table.
pub Keeps-load :
    {A : Type 0} (i : Uuid) {k : RepairOrder → Call A}
    → ((o : RepairOrder) → Keeps (Loaded o) (k o))
    → Keeps OneOrder (load_order i >>= k)
unfolding load_order
Keeps-load i {k} f = record {
  at = λ db one _.
      Post-bind _ _ _ k (λ o d h. (f o).at d h.0 h) (load_order i db)
        (found_Loaded i db one (row_of order_id i db.orders) refl);
}

-- How a service is put together that leaves the orders alone before it changes one.
pub ruleset keeps_rules = (Keeps-load, Quiet-then, Keeps-bind, Keeps-if, Keeps-when, Quiet-Keeps)
