-- ===== src/Integration/Budget/Requests.antt =====
-- `execute`, `retry` and `retry_all_pending` keep the budget.
use fmms.Prelude.{
  >>-keeps, pure, ◌||◌, resume, ◌>>◌, Post-bind, ◌≡◌, inl, inr, refl, Bool, true, false, not,
  Option, none, some, List, [], ◌∷◌, Uuid, DateTime, Text, ok, err, Result, Post, resume-Post,
  Bool-cases, Option-cases, if◌then◌else◌, arith,
}
use fmms.Prelude.Json.{Payload}
use fmms.Integration.Transaction.{
  success, exhausted, SapTransaction, SapObjectType, TransactionError, start, prepare_retry,
  mark_exhausted, status_is, can_retry,
}
use fmms.Integration.Repository.{
  list_pending_for_retry, find_by_id, get_by_idempotency_key, find_by_id-id,
}
use fmms.Integration.Manager.{
  resume_failed, is_in_flight, retry_found, execute_found, handled, sweep_one, Gateway, Adapter,
  ManagerError, Reply, Call, entity_result, save, invoke, handle_existing, new_transaction,
  create_and_start, execute, give_up, resubmit, retry, sweep, retry_all_pending,
}
use fmms.Integration.Budget.Rows.{IsBounded, find_by_id-get_by_idempotency_key, IsArmed}
use fmms.Integration.Budget.Invoke.{
  SameBudget, mark_exhausted-SameBudget, start-SameBudget, Fits, entity-Post, save-IsBounded,
  save-IsArmed, save_armed-IsBounded, invoke-IsBounded, prepare_retry-room,
}

-- A retry that the entity allows, whether it comes from `retry` or from `execute`: the object that
-- `prepare_retry` leaves is written, with whatever else `touch` sets, and then called for.
pub allowed_retry-IsBounded :
    (t : SapTransaction) (touch : SapTransaction → SapTransaction) (now : DateTime)
    (k : SapTransaction → Call Reply) (x : Result TransactionError (Unit {0}) × SapTransaction)
    (g : Gateway)
    → ((u : SapTransaction) → SameBudget u (touch u))
    → ((u : SapTransaction) (s : Gateway) → IsArmed u s → IsBounded (k u s).1)
    → prepare_retry t ≡ x
    → Fits t g
    → IsBounded (resume (λ u. save (touch u) now >> k (touch u)) (entity_result x g)).1
allowed_retry-IsBounded t touch now k (err _, u) g same q e f = f.0
allowed_retry-IsBounded t touch now k (ok _, u) g same q e f =
    let (i, o, le, m) = prepare_retry-room t u g e f in
    let (si, sr, sm) = same u in
    save_armed-IsBounded (touch u) now (k (touch u)) g (q (touch u)) f.0 (rw (si, sr) o)
      (rw (sr, sm) le) (rw sm m)

pub resubmit-IsBounded :
    (t : SapTransaction) (adapter : Adapter) (now : DateTime) (g : Gateway)
    → Fits t g
    → IsBounded (resubmit t adapter now g).1
unfolding resubmit
resubmit-IsBounded t adapter now g f =
    allowed_retry-IsBounded t (λ u. u) now (λ u. invoke u adapter u.request_payload now)
      (prepare_retry t) g (λ u. (refl, refl, refl))
      (λ u. invoke-IsBounded u adapter u.request_payload now) refl f

pub give_up-IsBounded :
    (t : SapTransaction) (now : DateTime) (g : Gateway) → Fits t g → IsBounded (give_up t now g).1
unfolding give_up
give_up-IsBounded t now g f =
    resume-Post IsBounded Fits _ (λ u s. save-IsBounded u now _ s (λ _ p. p))
      (entity_result (mark_exhausted now t) g)
      (entity-Post t (mark_exhausted now t) g (mark_exhausted-SameBudget now t) f)

-- A row that the table holds fits.
pub Fits-find :
    (i : Uuid) (t : SapTransaction) (g : Gateway)
    → IsBounded g
    → find_by_id i g.transactions ≡ some t
    → Fits t g
Fits-find i t g h e =
    let same = find_by_id-id i g.transactions {t = t} e in (h, rw same (rw e at (h.within i)))

pub retry_branch-IsBounded :
    (t : SapTransaction) (adapter : Adapter) (now : DateTime) (g : Gateway) (b : Bool)
    → Fits t g
    → IsBounded ((if b then give_up t now else resubmit t adapter now) g).1
retry_branch-IsBounded t adapter now g true f = give_up-IsBounded t now g f
retry_branch-IsBounded t adapter now g false f = resubmit-IsBounded t adapter now g f

pub retry-IsBounded :
    (i : Uuid) (adapter : Adapter) (now : DateTime) (g : Gateway)
    → IsBounded g
    → IsBounded (retry i adapter now g).1
unfolding retry retry_found
retry-IsBounded i adapter now g h = elim (Option-cases (find_by_id i g.transactions)) [
  | inl e ↦ rw e h
  | inr (t, e) ↦ rw e (retry_branch-IsBounded t adapter now g _ (Fits-find i t g h e))
]

-- The state after a call, for the loop of the sweep.
pub handled-state : (x : Result ManagerError Reply × Gateway) → (handled x).1 ≡ x.1
unfolding handled
handled-state (ok _, g) = refl
handled-state (err e, g) = ground arith

pub sweep_one-IsBounded :
    (now : DateTime) (t : SapTransaction) (a : Option Adapter) (g : Gateway)
    → IsBounded g
    → IsBounded (sweep_one now t a g).1
unfolding sweep_one
sweep_one-IsBounded now t none g h = h
sweep_one-IsBounded now t (some a) g h =
    rw (handled-state (retry t.id a now g)) (retry-IsBounded t.id a now g h)

pub sweep-IsBounded :
    (adapters : SapObjectType → Option Adapter) (now : DateTime) (rows : List SapTransaction)
    (g : Gateway)
    → IsBounded g
    → IsBounded (sweep adapters now rows g).1
unfolding sweep
sweep-IsBounded adapters now [] g h = h
sweep-IsBounded adapters now (t ∷ rows) g h =
    >>-keeps {P = IsBounded} (sweep_one now t (adapters t.object_type)) (sweep adapters now rows)
      (sweep_one-IsBounded now t (adapters t.object_type)) (sweep-IsBounded adapters now rows) g h

pub retry_all_pending-IsBounded :
    (adapters : SapObjectType → Option Adapter) (now : DateTime) (g : Gateway)
    → IsBounded g
    → IsBounded (retry_all_pending adapters now g).1
unfolding retry_all_pending
retry_all_pending-IsBounded adapters now g h =
    sweep-IsBounded adapters now (list_pending_for_retry g.transactions) g h

pub resume_existing-IsBounded :
    (t : SapTransaction) (p : Payload) (adapter : Adapter) (now : DateTime) (g : Gateway)
    → Fits t g
    → IsBounded (resume_failed t p adapter now g).1
unfolding resume_failed
resume_existing-IsBounded t p adapter now g f =
    allowed_retry-IsBounded t (λ u. record u { request_payload = p; updated_at = now }) now
      (λ u. invoke u adapter p now) (prepare_retry t) g (λ u. (refl, refl, refl))
      (λ u. invoke-IsBounded u adapter p now) refl f

pub handle_existing-IsBounded :
    (t : SapTransaction) (key : Text) (p : Payload) (adapter : Adapter) (now : DateTime)
    (g : Gateway)
    → Fits t g
    → IsBounded (handle_existing t key p adapter now g).1
unfolding handle_existing
handle_existing-IsBounded t key p adapter now g f = elim (Bool-cases (status_is success t)) [
  | inl e ↦ rw e f.0
  | inr e ↦ elim (Bool-cases (is_in_flight t)) [
    | inl e₂ ↦ rw (e, e₂) f.0
    | inr e₂ ↦ elim (Bool-cases (status_is exhausted t || not (can_retry t))) [
      | inl e₃ ↦ rw (e, e₂, e₃) f.0
      | inr e₃ ↦ rw (e, e₂, e₃) (resume_existing-IsBounded t p adapter now g f)
    ]
  ]
]

-- The transaction that is started is armed: SAP was not called for it yet.
pub start-IsArmed :
    (t : SapTransaction) (x : Result TransactionError (Unit {0}) × SapTransaction) (now : DateTime)
    (g : Gateway)
    → SameBudget t x.1
    → IsArmed t g
    → Post IsBounded IsArmed (resume (λ u. save u now >> pure u) (entity_result x g))
start-IsArmed t (err _, u) now g same a = a.bounded
start-IsArmed t (ok _, u) now g (si, sr, sm) a =
    Post-bind IsBounded (λ _. IsArmed u) IsArmed (λ _. pure u) (λ _ _ b. b) (save u now g)
      (save-IsArmed u now g a.bounded (rw (si, sr) a.open_calls) (rw (sr, sm) a.budget.1)
        (rw sm a.budget.2))

pub create_and_start-IsArmed :
    (fresh : Uuid) (kind : SapObjectType) (object : Uuid) (key : Text) (p : Payload)
    (now : DateTime) (g : Gateway)
    → IsBounded g
    → find_by_id fresh g.transactions ≡ none
    → Post IsBounded IsArmed (create_and_start fresh kind object key p now g)
unfolding create_and_start new_transaction
create_and_start-IsArmed fresh kind object key p now g h e =
    let t = new_transaction fresh kind object key p now in
    Post-bind IsBounded (λ _. IsArmed t) IsArmed _
      (λ _ s. start-IsArmed t (start t) now s (start-SameBudget t)) (save t now g)
      (save-IsArmed t now g h (rw (rw e at (h.within fresh)) (omega arith)) (omega arith) refl)

-- Each of the three entry points keeps the budget; a new transaction has a new id.
pub execute-IsBounded :
    (fresh : Uuid) (kind : SapObjectType) (object : Uuid) (key : Text) (p : Payload)
    (adapter : Adapter) (now : DateTime) (g : Gateway)
    → IsBounded g
    → find_by_id fresh g.transactions ≡ none
    → IsBounded (execute fresh kind object key p adapter now g).1
unfolding execute execute_found
execute-IsBounded fresh kind object key p adapter now g h e =
    elim (Option-cases (get_by_idempotency_key key g.transactions)) [
      | inr (t, f) ↦ rw f (
          handle_existing-IsBounded t key p adapter now g (
            Fits-find t.id t g h
              (find_by_id-get_by_idempotency_key key g.transactions t h.keyed f)))
      | inl f ↦ rw f (
          resume-Post IsBounded IsArmed (λ t. invoke t adapter p now)
            (λ t. invoke-IsBounded t adapter p now) (create_and_start fresh kind object key p now g)
            (create_and_start-IsArmed fresh kind object key p now g h e))
    ]
