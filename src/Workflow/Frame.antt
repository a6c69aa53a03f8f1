-- ===== src/Workflow/Frame.antt =====
-- Rules for what a service does to one table of the database.
use fmms.Prelude.{
  ◌≡◌, refl, ◌∙◌, Bool, true, false, Result, ok, err, Update, ◌>>=◌, pure, raise, when, Method,
  if◌then◌else◌, Post, Post-bind, Post-both,
}
use fmms.Workflow.Database.{Database, ServiceError, Call, restored, atomic}

-- The service leaves the table as it is.
pub record Still {S E T A : Type 0} (table : S → T) (m : Method S E A) : Type 0 where
  pub at : (db : S) → Post (λ (d : S). table d ≡ table db) (λ _ (d : S). table d ≡ table db) (m db)

-- From a table with the rule and P the service leads to a table with the rule, whether it returns or
-- raises.
pub record Holds {S E T A : Type 0} (table : S → T) (Rule P : T → Type 0) (m : Method S E A)
    : Type 0 where
  pub at :
      (db : S)
      → Rule (table db)
      → P (table db)
      → Post (λ (d : S). Rule (table d)) (λ _ (d : S). Rule (table d)) (m db)

module _ {S E T A : Type 0} {table : S → T} where
  pub Still-pure : (a : A) → Still table (pure {E = E} a)
  Still-pure a = record { at = λ db. refl }

  pub Still-raise : (e : E) → Still table (raise {S = S} {A = A} e)
  Still-raise e = record { at = λ db. refl }

  pub Still-if :
      (b : Bool) (m n : Method S E A)
      → Still table m
      → Still table n
      → Still table (if b then m else n)
  Still-if true m n p q = p
  Still-if false m n p q = q

  pub Holds-if :
      {Rule P : T → Type 0} (b : Bool) (m n : Method S E A)
      → Holds table Rule P m
      → Holds table Rule P n
      → Holds table Rule P (if b then m else n)
  Holds-if true m n p q = p
  Holds-if false m n p q = q

  pub Still-Holds : {Rule : T → Type 0} {m : Method S E A} → Still table m → Holds table Rule Rule m
  Still-Holds {m = m} q = record {
    at = λ db one _. Post-both _ _ _ _ (m db) (λ d e. rw e one) (λ a d e. rw e one) (q.at db);
  }

module _ {S E T A B : Type 0} {table : S → T} {m : Method S E A} {k : A → Method S E B} where
  pub Still-bind : Still table m → ((a : A) → Still table (k a)) → Still table (m >>= k)
  Still-bind q f = record {
    at = λ db.
        Post-bind _ _ _ k
          (λ a s e. Post-both _ _ _ _ (k a s) (λ d e₂. e₂ ∙ e) (λ b d e₂. e₂ ∙ e) ((f a).at s))
          (m db) (q.at db);
  }

  pub Holds-bind :
      {Rule P : T → Type 0}
      → Holds table Rule P m
      → ((a : A) → Holds table Rule Rule (k a))
      → Holds table Rule P (m >>= k)
  Holds-bind q f = record {
    at = λ db one h. Post-bind _ _ _ k (λ a s o. (f a).at s o o) (m db) (q.at db one h);
  }

  pub Still-then :
      {Rule P : T → Type 0}
      → Still table m
      → ((a : A) → Holds table Rule P (k a))
      → Holds table Rule P (m >>= k)
  Still-then {P = P} q f = record {
    at = λ db one h.
        Post-bind _ _ _ k (λ a s e. (f a).at s (rw e one) (rw e h)) (m db)
          (Post-both _ _ _ _ (m db) (λ d e. rw e one) (λ a d e. e) (q.at db));
  }

module _ {S E T : Type 0} {table : S → T} where
  pub Still-when : (b : Bool) (m : Update S E) → Still table m → Still table (when b m)
  Still-when true m q = q
  Still-when false m q = Still-pure tt

  pub Holds-when :
      {Rule : T → Type 0} (b : Bool) (m : Update S E)
      → Holds table Rule Rule m
      → Holds table Rule Rule (when b m)
  Holds-when true m q = q
  Holds-when false m q = Still-Holds (Still-pure tt)

-- A transaction of its own leaves nothing behind where it raises.
restored-Holds :
    {T A : Type 0} (table : Database → T) (Rule : T → Type 0) (db : Database)
    → Rule (table db)
    → (x : Result ServiceError A × Database)
    → Post (λ (d : Database). Rule (table d)) (λ _ (d : Database). Rule (table d)) x
    → Post (λ (d : Database). Rule (table d)) (λ _ (d : Database). Rule (table d)) (restored db x)
restored-Holds table Rule db one (ok a, d) h = h
restored-Holds table Rule db one (err e, d) h = one

pub Holds-atomic :
    {T A : Type 0} {table : Database → T} {Rule : T → Type 0} {m : Call A}
    → Holds table Rule Rule m
    → Holds table Rule Rule (atomic m)
unfolding atomic
Holds-atomic {table = table} {Rule = Rule} {m = m} q = record {
  at = λ db one h. restored-Holds table Rule db one (m db) (q.at db one h);
}
