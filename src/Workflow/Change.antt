-- ===== src/Workflow/Change.antt =====
-- Rules for a service that changes the order that it loaded.
use fmms.Prelude.{
  ◌≡◌, ◌∙◌, Bool, when, refl, ap, true, false, [], ◌∷◌, List, Uuid, DateTime, Result, ok, err,
  Update, ◌>>=◌, ◌>>◌, pure, Post, Post-bind, Post-map, Bool-cases, inl, inr, resume, arith, ◌==◌,
}
use fmms.Repair.Status.{is_terminal}
use fmms.Repair.Order
use fmms.Repair.Order.{RepairOrder, transition_to, RepairError, RepairPart, new_order}
use fmms.Repair.Lifecycle.{Call as Action, apply, run}
use fmms.Repair.Closing.{links_sap, apply_terminal, run_terminal}
use fmms.Repair.Identity.{SameKeys, apply-SameKeys}
use fmms.Workflow.Table.{Row, put}
use fmms.Workflow.Stored.{stored_order}
use fmms.Workflow.Database.{Database, Call, ServiceError, held, repair_error, order_id, save_order}
use fmms.Workflow.Steps.{change_order, touch_order}
use fmms.Workflow.Rules.{OneOrder, Quiet-pure, Quiet-Keeps, Keeps, Loaded, Cleared}
use fmms.Workflow.Advance.{Advances, change-Changed, count-save_any, count-save_ended}

-- The method ends the order, which had not ended.
abbrev pub Ends : Update RepairOrder RepairError → Type 0
Ends m =
    (o p : RepairOrder)
    → m o ≡ (ok tt, p)
    → (is_terminal o.status ≡ false) × (is_terminal p.status ≡ true)

module _ {A : Type 0} {m : Update RepairOrder RepairError} (now : DateTime) (o : RepairOrder) where
  pub Keeps-change :
      {k : RepairOrder → Call A}
      → Advances m
      → ((p : RepairOrder) → Keeps OneOrder (k p))
      → Keeps (Loaded o) (change_order m now o >>= k)
  Keeps-change {k} a f = record {
    at = λ db one l.
        Post-bind _ _ _ k (λ p d c. (f p).at d c.0.0 c.0.0) (change_order m now o db)
          (change-Changed m now o (λ _. Unit {0}) a (λ _ _. tt) db l);
  }

  -- The fault of an order that ends has no other.
  pub Keeps-end :
      {k : RepairOrder → Call A}
      → Advances m
      → Ends m
      → ((p : RepairOrder) → Keeps (Cleared p.fault_id) (k p))
      → Keeps (Loaded o) (change_order m now o >>= k)
  Keeps-end {k} a z f = record {
    at = λ db one l.
        Post-bind _ _ _ k (λ p d (c, (x, y)). (f p).at d c.0 (c.0, c.2 x y))
          (change_order m now o db)
          (change-Changed m now o
            (λ p. (is_terminal o.status ≡ false) × (is_terminal p.status ≡ true)) a (z o) db l);
  }

pub Keeps-changed :
    {m : Update RepairOrder RepairError} (now : DateTime) (o : RepairOrder)
    → Advances m
    → Keeps (Loaded o) (change_order m now o)
Keeps-changed {m} now o a = record {
  at = λ db one l.
      Post-map _ _ _ (change_order m now o db) (λ p d c. c.0.0)
        (change-Changed m now o (λ _. Unit {0}) a (λ _ _. tt) db l);
}

-- The end of an order that a service holds, whatever its row is.
pub Keeps-ended :
    {m : Update RepairOrder RepairError} (now : DateTime) (o : RepairOrder)
    → Ends m
    → Keeps OneOrder (change_order m now o)
unfolding change_order save_order OneOrder
Keeps-ended {m} now o z = record { at = λ db one _. go db one (m o) refl }
  where
    go :
        (db : Database)
        → OneOrder db.orders
        → (x : Result RepairError (Unit {0}) × RepairOrder) → m o ≡ x
        → Post
            (λ (d : Database). OneOrder d.orders)
            (λ p (d : Database). OneOrder d.orders)
            (resume
              (λ p. save_order now p >> pure p)
              (held repair_error (resume (λ _. touch_order now) x) db))
    go db one (err e, p) h = one
    go db one (ok u, p) h = λ g.
        omega
          (arith, one g, count-save_ended now record p { updated_at = now } g db.orders (z o p h).1)

-- A new order for a fault that has none.
saved_new :
    (now : DateTime) (fresh vehicle fault user : Uuid) (rows : List (Row RepairOrder))
    → Cleared fault rows
    → OneOrder (put order_id (stored_order now) (new_order fresh vehicle fault user now) rows)
unfolding new_order OneOrder
saved_new now fresh vehicle fault user rows (one, none_left) g = elim (Bool-cases (fault == g)) [
  | inl e ↦
      ground (arith, none_left, count-save_any now (new_order fresh vehicle fault user now) g rows)
  | inr e ↦
      ground (arith, one g, count-save_any now (new_order fresh vehicle fault user now) g rows)
]

pub Keeps-new :
    {A : Type 0} {k : Unit {0} → Call A} (now : DateTime) (fresh vehicle fault user : Uuid)
    → ((u : Unit {0}) → Keeps OneOrder (k u))
    → Keeps (Cleared fault) (save_order now (new_order fresh vehicle fault user now) >>= k)
unfolding save_order
Keeps-new now fresh vehicle fault user f = record {
  at = λ db one h.
      (f tt).at _ (saved_new now fresh vehicle fault user db.orders h)
        (saved_new now fresh vehicle fault user db.orders h);
}

pub Loaded-Keeps :
    {A : Type 0} (o : RepairOrder) {m : Call A} → Keeps OneOrder m → Keeps (Loaded o) m
Loaded-Keeps o q = record { at = λ db one l. q.at db one one }

pub Loaded-when :
    (o : RepairOrder) (b : Bool) (m : Update Database ServiceError)
    → Keeps (Loaded o) m
    → Keeps (Loaded o) (when b m)
Loaded-when o true m q = q
Loaded-when o false m q = Loaded-Keeps o (Quiet-Keeps (Quiet-pure tt))

-- The parts of the order may have changed before the method is called.
pub Keeps-change_parts :
    {A : Type 0} {m : Update RepairOrder RepairError} (now : DateTime) (o : RepairOrder)
    (l : List RepairPart) {k : RepairOrder → Call A}
    → Advances m
    → ((p : RepairOrder) → Keeps OneOrder (k p))
    → Keeps (Loaded o) (change_order m now (record o { parts = l }) >>= k)
Keeps-change_parts now o l a f = record {
  at = λ db one h. (Keeps-change now record o { parts = l } a f).at db one h;
}

pub Cleared-Keeps : {A : Type 0} (f : Uuid) {m : Call A} → Keeps OneOrder m → Keeps (Cleared f) m
Cleared-Keeps f q = record { at = λ db one l. q.at db one one }

-- The methods of the entity.
pub apply-Advances : (c : Action) → Advances (apply c)
unfolding run
apply-Advances c o p h =
    let e = ap (λ (x : Result RepairError (Unit {0}) × RepairOrder). x.1) h in
    (rw⁻¹ e (apply-SameKeys c o), λ t. rw⁻¹ e (ap is_terminal ((run_terminal (c ∷ []) o t).0) ∙ t))

pub Advances->> :
    (m n : Update RepairOrder RepairError) → Advances m → Advances n → Advances (m >> n)
Advances->> m n a b o p h = go (m o) refl h
  where
    go :
        (x : Result RepairError (Unit {0}) × RepairOrder)
        → m o ≡ x
        → resume (λ _. n) x ≡ (ok tt, p)
        → SameKeys o p × (is_terminal o.status ≡ true → is_terminal p.status ≡ true)
    go (err e, q) e₁ e₂ = ground arith
    go (ok u, q) e₁ e₂ =
        let (same, t) = a o q e₁ in
        let (same₂, t₂) = b q p e₂ in
        ((same₂.0 ∙ same.0, same₂.1 ∙ same.1, same₂.2 ∙ same.2), λ h₂. t₂ (t h₂))

-- A method that ended an order ended one that had not ended.
was_open :
    (c : Action) (o p : RepairOrder)
    → links_sap c ≡ false
    → apply c o ≡ (ok tt, p)
    → is_terminal o.status ≡ false
was_open c o p l h = elim (Bool-cases (is_terminal o.status)) [
  | inl t ↦
      absurd (
        (apply_terminal c o t).1 l
          (ap (λ (x : Result RepairError (Unit {0}) × RepairOrder). x.0) h))
  | inr f ↦ f
]

pub complete-Ends : (d : DateTime) → Ends (Order.complete_after_transport_handover d)
unfolding apply is_terminal Order.complete_after_transport_handover transition_to
complete-Ends d o p h =
    (was_open (Action.complete_after_transport_handover d) o p refl h, ground arith)

pub reject-Ends : Ends (Order.confirm_handover false)
unfolding apply is_terminal Order.confirm_handover transition_to
reject-Ends o p h = (was_open (Action.confirm_handover false) o p refl h, ground arith)

pub cancel-Ends : Ends Order.cancel
unfolding apply is_terminal Order.cancel transition_to
cancel-Ends o p h = (was_open Action.cancel o p refl h, ground arith)
