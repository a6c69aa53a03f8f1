-- ===== src/Integration/Budget/Invoke.antt =====
-- The call of an adapter keeps the budget (`_invoke`).
use fmms.Prelude.{
  ◌>>◌, text_truthy, Post-map, ℕ, ◌≤◌, ◌≡◌, inl, inr, refl, true, false, Option, none, some, ◌∷◌,
  Uuid, DateTime, Text, ok, err, Result, Post, resume-Post, Bool-cases, ℕ_discrete, if◌then◌else◌,
  arith,
}
use fmms.Prelude.Json.{Payload}
use fmms.Integration.Transaction.{
  SapTransaction, TransactionError, start, succeed, fail, prepare_retry, mark_exhausted,
  max_retry_attempts, in_progress, status_is, retrying,
}
use fmms.Integration.Repository.{find_by_id, stored, kept_created}
use fmms.Integration.Manager.{
  Gateway, Outcome, answer, integration_error, other_exception, Adapter, Reply, Call, entity_result,
  save, conclude, invoke,
}
use fmms.Integration.Budget.Rows.{
  count, count_self, count_ne, InBudget, Within, IsBounded, IsArmed, save-Post,
}

-- The fields of which the budget speaks.
abbrev pub SameBudget : SapTransaction → SapTransaction → Type 0
SameBudget t u = (u.id ≡ t.id) × (u.retry_count ≡ t.retry_count) × (u.max_retries ≡ t.max_retries)

pub fail-SameBudget : (m : Text) (t : SapTransaction) → SameBudget t (fail m t).1
unfolding fail
fail-SameBudget m t = ground arith

pub succeed-SameBudget :
    (p : Payload) (d : Option Text) (at : DateTime) (t : SapTransaction)
    → SameBudget t (succeed p d at t).1
unfolding succeed
succeed-SameBudget p d at t = ground arith

pub mark_exhausted-SameBudget :
    (at : DateTime) (t : SapTransaction) → SameBudget t (mark_exhausted at t).1
unfolding mark_exhausted
mark_exhausted-SameBudget at t = ground arith

pub start-SameBudget : (t : SapTransaction) → SameBudget t (start t).1
unfolding start
start-SameBudget t = ground arith

-- A transaction that may be written without breaking the budget.
abbrev pub Fits : SapTransaction → Gateway → Type 0
Fits t g = IsBounded g × InBudget t (count t.id g.calls)

pub Fits-SameBudget : (t u : SapTransaction) (g : Gateway) → SameBudget t u → Fits t g → Fits u g
Fits-SameBudget t u g s (h, b) = (h, rw (s.0, s.1, s.2) b)

pub entity-Post :
    (t : SapTransaction) (x : Result TransactionError (Unit {0}) × SapTransaction) (g : Gateway)
    → SameBudget t x.1
    → Fits t g
    → Post IsBounded Fits (entity_result x g)
entity-Post t (ok _, u) g s f = Fits-SameBudget t u g s f
entity-Post t (err _, u) g s f = f.0

-- A write, and then something that only returns or raises.
pub save-IsBounded :
    {A : Type 0} (t : SapTransaction) (now : DateTime) (k : Call A) (g : Gateway)
    → ((s : Gateway) → IsBounded s → IsBounded (k s).1)
    → Fits t g
    → IsBounded ((save t now >> k) g).1
save-IsBounded t now k g q (h, b) =
    resume-Post IsBounded _ (λ _. k) (λ _ s p. q s p.0) (save t now g) (save-Post t now g h b)

pub conclude-IsBounded :
    (t : SapTransaction) (now : DateTime) (o : Outcome) (g : Gateway)
    → Fits t g
    → IsBounded (conclude t now o g).1
unfolding conclude
conclude-IsBounded t now (integration_error m) g f =
    resume-Post IsBounded Fits _ (λ u s. save-IsBounded u now _ s (λ _ p. p))
      (entity_result (fail m t) g) (entity-Post t (fail m t) g (fail-SameBudget m t) f)
conclude-IsBounded t now (answer p d) g f =
    let at = if text_truthy d then some d else none in
    resume-Post IsBounded Fits _ (λ u s. save-IsBounded u now _ s (λ _ p. p))
      (entity_result (succeed p at now t) g)
      (entity-Post t (succeed p at now t) g (succeed-SameBudget p at now t) f)
conclude-IsBounded t now other_exception g f = f.0

pub record_call-Within :
    (t : SapTransaction) (g : Gateway)
    → IsArmed t g
    → (i : Uuid) → Within (find_by_id i g.transactions) (count i (t.id ∷ g.calls))
record_call-Within t g a i =
    let (r, e, same, most) = a.row in
    elim (ℕ_discrete t.id i) [
      | yes p ↦ rw (← p, e) (ground (arith, count_self t.id g.calls))
      | no p ↦ rw (count_ne i t.id g.calls p) (a.bounded.within i)
    ]

-- One more call for an armed transaction stays within its budget.
pub record_call-Fits :
    (t : SapTransaction) (g : Gateway) → IsArmed t g → Fits t (record g { calls = t.id ∷ g.calls })
record_call-Fits t g a = (
  record { keyed = a.bounded.keyed; within = record_call-Within t g a },
  rw count_self (ground arith),
)

-- What follows the first write of `_invoke`.
abbrev pub call_adapter : SapTransaction → Adapter → Payload → DateTime → Call Reply
call_adapter t adapter p now g = conclude t now (adapter p) (record g { calls = t.id ∷ g.calls })

pub call_adapter-IsBounded :
    (t : SapTransaction) (adapter : Adapter) (p : Payload) (now : DateTime) (g : Gateway)
    → IsArmed t g
    → IsBounded (call_adapter t adapter p now g).1
call_adapter-IsBounded t adapter p now g a =
    conclude-IsBounded t now (adapter p) (record g { calls = t.id ∷ g.calls })
      (record_call-Fits t g a)

pub invoke_other :
    (t : SapTransaction) (adapter : Adapter) (p : Payload) (now : DateTime) (g : Gateway)
    → status_is retrying t ≡ false
    → invoke t adapter p now g ≡ call_adapter t adapter p now g
unfolding invoke
invoke_other t adapter p now g e = rw e

pub invoke_retrying :
    (t : SapTransaction) (adapter : Adapter) (p : Payload) (now : DateTime) (g : Gateway)
    → status_is retrying t ≡ true
    → invoke t adapter p now g
      ≡ (save (record t { status = in_progress }) now
            >> call_adapter (record t { status = in_progress }) adapter p now)
          g
unfolding invoke
invoke_retrying t adapter p now g e = rw e

-- A written transaction whose calls are all accounted for is armed.
pub arm :
    (t : SapTransaction) (c now : DateTime) (n : ℕ) (s : Gateway)
    → IsBounded s
    → count t.id s.calls ≤ t.retry_count
    → t.retry_count ≤ t.max_retries
    → t.max_retries ≡ max_retry_attempts
    → find_by_id t.id s.transactions ≡ some (stored t c now)
    → IsArmed t s
unfolding stored
arm t c now n s h o le m e = record {
  bounded = h;
  open_calls = o;
  budget = ground arith;
  row = (stored t c now, e, refl, refl);
}

-- Such a transaction may be written.
pub save-IsArmed :
    (t : SapTransaction) (now : DateTime) (g : Gateway)
    → IsBounded g
    → count t.id g.calls ≤ t.retry_count
    → t.retry_count ≤ t.max_retries
    → t.max_retries ≡ max_retry_attempts
    → Post IsBounded (λ _. IsArmed t) (save t now g)
save-IsArmed t now g h o le m =
    Post-map IsBounded _ (λ _. IsArmed t) (save t now g)
      (λ _ s p. arm t (kept_created t g.transactions) now 0 s p.0 (rw p.1 o) le m p.2)
      (save-Post t now g h (ground arith))

-- And then SAP may be called for it.
pub save_armed-IsBounded :
    {A : Type 0} (t : SapTransaction) (now : DateTime) (k : Call A) (g : Gateway)
    → ((s : Gateway) → IsArmed t s → IsBounded (k s).1)
    → IsBounded g
    → count t.id g.calls ≤ t.retry_count
    → t.retry_count ≤ t.max_retries
    → t.max_retries ≡ max_retry_attempts
    → IsBounded ((save t now >> k) g).1
save_armed-IsBounded t now k g q h o le m =
    resume-Post IsBounded (λ _. IsArmed t) (λ _. k) (λ _. q) (save t now g)
      (save-IsArmed t now g h o le m)

pub invoke-IsBounded :
    (t : SapTransaction) (adapter : Adapter) (p : Payload) (now : DateTime) (g : Gateway)
    → IsArmed t g
    → IsBounded (invoke t adapter p now g).1
invoke-IsBounded t adapter p now g a = elim (Bool-cases (status_is retrying t)) [
  | inl e ↦ rw (invoke_retrying t adapter p now g e) (
      save_armed-IsBounded (record t { status = in_progress }) now
        (call_adapter (record t { status = in_progress }) adapter p now) g
        (λ s b. call_adapter-IsBounded (record t { status = in_progress }) adapter p now s b)
        a.bounded a.open_calls a.budget.1 a.budget.2)
  | inr e ↦ rw (invoke_other t adapter p now g e) (call_adapter-IsBounded t adapter p now g a)
]

-- `prepare_retry` makes room for one more call.
pub prepare_retry-room :
    (t u : SapTransaction) (g : Gateway)
    → prepare_retry t ≡ (ok tt, u)
    → Fits t g
    → (u.id ≡ t.id)
      × (count u.id g.calls ≤ u.retry_count)
      × (u.retry_count ≤ u.max_retries)
      × (u.max_retries ≡ max_retry_attempts)
unfolding prepare_retry
prepare_retry-room t u g e f = ground arith
