-- ===== src/Workflow/Saved.antt =====
-- A service that returns an order has saved it, in the status that the service is for.
use fmms.Prelude.{
  ◌≡◌, refl, ◌∙◌, Bool, Option, some, Uuid, DateTime, Text, strip, blank_to_none, Result, ok, err,
  Update, ◌>>=◌, ◌>>◌, pure, resume, Post, Post-bind, Post-both, arith,
}
use fmms.Repair.Status.{
  RepairOrderStatus, approved, rejected_by_transport, completed, in_progress,
  waiting_driver_confirmation, cancelled,
}
use fmms.Repair.Order
use fmms.Repair.Order.{RepairOrder, RepairError}
use fmms.Workflow.Table.{Row, row_of, put, row_of-put}
use fmms.Workflow.Stored.{stored_order}
use fmms.Workflow.Database.{
  Database, Call, ServiceError, held, repair_error, order_id, load_order, save_order,
}
use fmms.Workflow.Steps.{change_order, touch_order, or_now}
use fmms.Workflow.Rules.{Quiet}
use fmms.Workflow.Quiet.{shared_rules}
use fmms.Workflow.OneOrder.Transport.{Quiet-reopen_fault}
use fmms.Workflow.OneOrder.Handovers.{Quiet-create_handover}
use fmms.Workflow.OneOrder.Workshop.{
  Quiet-await_driver, Quiet-active_assignment, Quiet-cancel_assignment,
}
use fmms.Workflow.Transport.{
  approve_repair_order, reject_repair_order, check_cost, approve_handover,
}
use fmms.Workflow.Workshop.{start_repair, complete_repair_order, cancel_repair_order}

-- The order has the status, and so has the row of its id.
abbrev pub Stands : RepairOrderStatus → RepairOrder → Database → Type 0
Stands s p d =
    (p.status ≡ s)
    × ((r : Row RepairOrder) × (row_of order_id p.id d.orders ≡ some r) × (r.entity.status ≡ s))

-- A service returns only orders that stand so in the database that it leaves.
record Saved (s : RepairOrderStatus) (m : Call RepairOrder) : Type 0 where
  at : (db : Database) → Post (λ _. Unit {0}) (Stands s) (m db)

-- The service returns the order and leaves the orders as they are.
record Tail (p : RepairOrder) (m : Call RepairOrder) : Type 0 where
  at :
      (db : Database)
      → Post (λ _. Unit {0}) (λ q (d : Database). (q ≡ p) × (d.orders ≡ db.orders)) (m db)

Tail-pure : (p : RepairOrder) → Tail p (pure p)
Tail-pure p = record { at = λ db. (refl, refl) }

Tail-bind :
    {A : Type 0} (p : RepairOrder) {m : Call A} {k : A → Call RepairOrder}
    → Quiet m
    → ((a : A) → Tail p (k a))
    → Tail p (m >>= k)
Tail-bind p {m} {k} q f = record {
  at = λ db.
      Post-bind _ _ _ k
        (λ a s e. Post-both _ _ _ _ (k a s) (λ _ _. tt) (λ b d (e₂, e₃). (e₂, e₃ ∙ e)) ((f a).at s))
        (m db) (Post-both _ _ _ _ (m db) (λ _ _. tt) (λ _ _ e. e) (q.at db));
}

any_Post :
    {A : Type 0} (x : Result ServiceError A × Database) → Post (λ _. Unit {0}) (λ _ _. Unit {0}) x
any_Post (ok a, d) = tt
any_Post (err e, d) = tt

Saved-then :
    {A : Type 0} {s : RepairOrderStatus} (m : Call A) {k : A → Call RepairOrder}
    → ((a : A) → Saved s (k a))
    → Saved s (m >>= k)
Saved-then m {k} f = record {
  at = λ db. Post-bind _ _ _ k (λ a d _. (f a).at d) (m db) (any_Post (m db));
}

-- A method that leaves an order in a status.
abbrev Reaches : RepairOrderStatus → Update RepairOrder RepairError → Type 0
Reaches s m = (o p : RepairOrder) → m o ≡ (ok tt, p) → p.status ≡ s

saved_Stands :
    (s : RepairOrderStatus) (now : DateTime) (p : RepairOrder) (db : Database)
    → p.status ≡ s
    → (r : Row RepairOrder) × (row_of order_id p.id (put order_id (stored_order now) p db.orders)
        ≡ some r)
      × (r.entity.status ≡ s)
unfolding stored_order
saved_Stands s now p db h = (
  stored_order now (row_of order_id p.id db.orders) p,
  ground (arith, row_of-put order_id (stored_order now) (λ _ _. refl) p.id p db.orders),
  h,
)

change-Saved :
    (s : RepairOrderStatus) (m : Update RepairOrder RepairError) (now : DateTime) (o : RepairOrder)
    → Reaches s m
    → (db : Database) → Post (λ _. Unit {0}) (Stands s) (change_order m now o db)
unfolding change_order save_order
change-Saved s m now o reach db = go (m o) refl
  where
    go :
        (x : Result RepairError (Unit {0}) × RepairOrder)
        → m o ≡ x
        → Post
            (λ _. Unit {0})
            (Stands s)
            (resume
              (λ p. save_order now p >> pure p)
              (held repair_error (resume (λ _. touch_order now) x) db))
    go (err e, p) h = tt
    go (ok u, p) h =
        (reach o p h, saved_Stands s now record p { updated_at = now } db (reach o p h))

Saved-changed :
    {s : RepairOrderStatus} {m : Update RepairOrder RepairError} (now : DateTime) (o : RepairOrder)
    → Reaches s m
    → Saved s (change_order m now o)
Saved-changed {s} {m} now o reach = record { at = change-Saved s m now o reach }

Saved-change :
    {s : RepairOrderStatus} {m : Update RepairOrder RepairError} (now : DateTime) (o : RepairOrder)
    {k : RepairOrder → Call RepairOrder}
    → Reaches s m
    → ((p : RepairOrder) → Tail p (k p))
    → Saved s (change_order m now o >>= k)
Saved-change {s} {m} now o {k} reach f = record {
  at = λ db.
      Post-bind _ (Stands s) _ k
        (λ p d h.
          Post-both _ _ _ _ (k p d) (λ _ _. tt) (λ q e (e₂, e₃). rw (e₂, e₃) h) ((f p).at d))
        (change_order m now o db) (change-Saved s m now o reach db);
}

approve-Reaches : (t : Option Text) → Reaches approved (Order.approve t)
unfolding Order.approve Order.transition_to
approve-Reaches t o p h = ground arith

reject-Reaches : (t : Text) → Reaches rejected_by_transport (Order.reject_by_transport t)
unfolding Order.reject_by_transport
reject-Reaches t o p h = ground arith

complete-Reaches : (d : DateTime) → Reaches completed (Order.complete_after_transport_handover d)
unfolding Order.complete_after_transport_handover Order.transition_to
complete-Reaches d o p h = ground arith

start-Reaches : Reaches in_progress Order.start_work
unfolding Order.start_work Order.transition_to
start-Reaches o p h = ground arith

waiting-Reaches :
    (d : DateTime)
    → Reaches waiting_driver_confirmation (Order.complete_waiting_driver_confirmation d)
unfolding Order.complete_waiting_driver_confirmation Order.transition_to
waiting-Reaches d o p h = ground arith

cancel-Reaches : Reaches cancelled Order.cancel
unfolding Order.cancel Order.transition_to
cancel-Reaches o p h = ground arith

ruleset tail_rules = (Tail-bind, Tail-pure, shared_rules)

approve-Saved :
    (i : Uuid) (t : Option Text) (user : Uuid) (now : DateTime)
    → Saved approved (approve_repair_order i t user now)
unfolding approve_repair_order
approve-Saved i t user now =
    Saved-then (load_order i)
      λ o. Saved-change now o (approve-Reaches (blank_to_none t)) λ p. search tail_rules

reject-Saved :
    (i : Uuid) (t : Text) (user : Uuid) (now : DateTime)
    → Saved rejected_by_transport (reject_repair_order i t user now)
unfolding reject_repair_order
reject-Saved i t user now = Saved-then (load_order i) λ o.
    Saved-change now o (reject-Reaches (strip t))
      λ p. search (tail_rules, Quiet-reopen_fault) depth 10

approve_handover-Saved :
    (i user : Uuid) (now : DateTime) → Saved completed (approve_handover i user now)
unfolding approve_handover
approve_handover-Saved i user now = Saved-then (load_order i) λ o. Saved-then (check_cost o) λ _.
    Saved-change now o (complete-Reaches (or_now o.completed_at now))
      λ p. search tail_rules depth 10

start-Saved :
    (i : Uuid) (user : Option Uuid) (now : DateTime) → Saved in_progress (start_repair i user now)
unfolding start_repair
start-Saved i user now =
    Saved-then (load_order i) λ o. Saved-change now o start-Reaches λ p. search tail_rules depth 10

complete-Saved :
    (fresh i : Uuid) (at : DateTime) (b : Bool) (user : Uuid) (now : DateTime)
    → Saved waiting_driver_confirmation (complete_repair_order fresh i at b user now)
unfolding complete_repair_order
complete-Saved fresh i at b user now =
    search
      (
        Saved-change, Saved-then, waiting-Reaches, tail_rules, Quiet-await_driver,
        Quiet-create_handover,
      )
      depth 14 fits 9000

cancel-Saved : (i user : Uuid) (now : DateTime) → Saved cancelled (cancel_repair_order i user now)
unfolding cancel_repair_order
cancel-Saved i user now = Saved-then (load_order i) λ o.
    Saved-change now o cancel-Reaches
      λ p. search (tail_rules, Quiet-active_assignment, Quiet-cancel_assignment) depth 10

-- An order that a service returns has the status that the service is for, and the row with its id in
-- the database has it too, whatever the service did after it saved the order: APPROVED,
-- REJECTED_BY_TRANSPORT, COMPLETED for the approval of the return, IN_PROGRESS,
-- WAITING_DRIVER_CONFIRMATION for the completion of the repair, and CANCELLED.
pub returned_orders_saved :
    (fresh i user : Uuid) (t : Option Text) (reason : Text) (starter : Option Uuid) (at : DateTime)
    (b : Bool) (now : DateTime) (db : Database)
    → Post (λ _. Unit {0}) (Stands approved) (approve_repair_order i t user now db)
      × Post
          (λ _. Unit {0})
          (Stands rejected_by_transport)
          (reject_repair_order i reason user now db)
      × Post (λ _. Unit {0}) (Stands completed) (approve_handover i user now db)
      × Post (λ _. Unit {0}) (Stands in_progress) (start_repair i starter now db)
      × Post
          (λ _. Unit {0})
          (Stands waiting_driver_confirmation)
          (complete_repair_order fresh i at b user now db)
      × Post (λ _. Unit {0}) (Stands cancelled) (cancel_repair_order i user now db)
returned_orders_saved fresh i user t reason starter at b now db = (
  (approve-Saved i t user now).at db,
  (reject-Saved i reason user now).at db,
  (approve_handover-Saved i user now).at db,
  (start-Saved i starter now).at db,
  (complete-Saved fresh i at b user now).at db,
  (cancel-Saved i user now).at db,
)
