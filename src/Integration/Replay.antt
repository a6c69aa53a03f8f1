-- ===== src/Integration/Replay.antt =====
-- What a repeated `execute` with one idempotency key does.
use fmms.Prelude.{
  blank_to_none, ◌≡◌, ◌∙◌, refl, inl, inr, false, not, ◌||◌, none, some, List, [], ◌∷◌, Uuid,
  DateTime, Text, text_truthy, ok, err, Result, Post, Post-bind, Bool-cases, Option-cases, pure,
  ◌>>◌, if◌then◌else◌, arith,
}
use fmms.Prelude.Json.{Payload}
use fmms.Integration.Transaction.{
  SapTransaction, SapTransactionStatus, SapObjectType, pending, in_progress, success, failed,
  retrying, exhausted, start, succeed, fail, prepare_retry, status_is, can_retry,
  SapTransactionStatus-discrete,
}
use fmms.Integration.Repository.{
  get_by_idempotency_key, key_taken, update_or_create, stored, kept_created,
}
use fmms.Integration.Manager.{
  Gateway, Outcome, answer, integration_error, other_exception, Adapter, ManagerError, idempotency,
  exhausted_error, Reply, entity_result, save, conclude, invoke, is_in_flight, resume_failed,
  handle_existing, new_transaction, create_and_start, execute_found, execute, payload_or_empty,
  text_or_empty,
}

-- The answer to a key whose transaction is not open to a retry.
unfoldable pub settled_reply :
    Text → SapTransaction → SapTransactionStatus → Result ManagerError Reply
settled_reply key t success =
    ok (payload_or_empty t.response_payload, text_or_empty t.sap_document_number)
settled_reply key t pending = err (idempotency key t.id)
settled_reply key t in_progress = err (idempotency key t.id)
settled_reply key t retrying = err (idempotency key t.id)
settled_reply key t failed = err (exhausted_error t.id t.max_retries)
settled_reply key t exhausted = err (exhausted_error t.id t.max_retries)

handle_existing_settled :
    (t : SapTransaction) (key : Text) (p : Payload) (adapter : Adapter) (now : DateTime)
    (g : Gateway)
    → can_retry t ≡ false
    → handle_existing t key p adapter now g ≡ (settled_reply key t t.status, g)
unfolding handle_existing settled_reply is_in_flight SapTransactionStatus-discrete
handle_existing_settled t key p adapter now g h = ground arith

-- Where the key has a transaction that is not a FAILED one with retries left, `execute` calls
-- nobody and writes nothing. It returns the stored reply of a SUCCESS, refuses a key in flight as a
-- duplicate, and reports that the retries are used up otherwise.
pub execute_settled :
    (fresh : Uuid) (kind : SapObjectType) (object : Uuid) (key : Text) (p : Payload)
    (adapter : Adapter) (now : DateTime) (g : Gateway) (t : SapTransaction)
    → get_by_idempotency_key key g.transactions ≡ some t
    → can_retry t ≡ false
    → execute fresh kind object key p adapter now g ≡ (settled_reply key t t.status, g)
unfolding execute execute_found
execute_settled fresh kind object key p adapter now g t e h =
    rw e (handle_existing_settled t key p adapter now g h)

-- The table answers the key with this reply.
pub record Replays (key : Text) (reply : Reply) (g : Gateway) : Type 0 where
  pub row : SapTransaction
  pub found : get_by_idempotency_key key g.transactions ≡ some row
  pub succeeded : row.status ≡ success
  pub same : reply ≡ (payload_or_empty row.response_payload, text_or_empty row.sap_document_number)

get_by_idempotency_key-update :
    (t : SapTransaction) (now : DateTime) (rows : List SapTransaction)
    → key_taken t rows ≡ false
    → get_by_idempotency_key t.idempotency_key (update_or_create t now rows)
      ≡ some (stored t (kept_created t rows) now)
unfolding get_by_idempotency_key update_or_create key_taken kept_created stored
get_by_idempotency_key-update t now [] h = ground arith
get_by_idempotency_key-update t now (u ∷ rows) h =
    ground (arith, get_by_idempotency_key-update t now rows)

abbrev Anything : Gateway → Type 0
Anything _ = Unit

-- A `save` that returns has made its transaction the one of its key.
save-found :
    (t : SapTransaction) (now : DateTime) (g : Gateway)
    → Post Anything
        (λ _ s.
          get_by_idempotency_key t.idempotency_key s.transactions
          ≡ some (stored t (kept_created t g.transactions) now))
        (save t now g)
unfolding save
save-found t now g = elim (Bool-cases (key_taken t g.transactions)) [
  | inl e ↦ rw e tt
  | inr e ↦ rw e (get_by_idempotency_key-update t now g.transactions e)
]

-- The document number comes back as it went in, blank or not.
text_or_empty-blank_to_none :
    (d : Text) → text_or_empty (blank_to_none (if text_truthy d then some d else none)) ≡ d
text_or_empty-blank_to_none [] = refl
text_or_empty-blank_to_none (_ ∷ _) = refl

HasSucceeded : Payload → Text → Text → SapTransaction → Type 0
HasSucceeded p d key u =
    (u.status ≡ success)
    × (u.response_payload ≡ some p)
    × (u.sap_document_number ≡ (if text_truthy d then some d else none))
    × (u.idempotency_key ≡ key)

succeed-Post :
    (t : SapTransaction) (p : Payload) (d : Text) (now : DateTime) (g : Gateway)
    → Post Anything
        (λ u _. HasSucceeded p d t.idempotency_key u)
        (entity_result (succeed p (if text_truthy d then some d else none) now t) g)
unfolding succeed HasSucceeded
succeed-Post t p d now g = ground arith

save_success-Post :
    (u : SapTransaction) (p : Payload) (d : Text) (key : Text) (now : DateTime) (g : Gateway)
    → HasSucceeded p d key u
    → Post Anything (Replays key) ((save u now >> pure (p, d)) g)
unfolding HasSucceeded stored
save_success-Post u p d key now g (s, r, n, k) =
    Post-bind Anything _ (Replays key) _
      (λ _ h e. record {
        row = stored u (kept_created u g.transactions) now;
        found = rw (← k) e;
        succeeded = s;
        same = rw (r, n, text_or_empty-blank_to_none d);
      })
      (save u now g) (save-found u now g)

-- Of a call about which nothing is asked.
Post-any : {A : Type 0} (x : Result ManagerError A × Gateway) → Post Anything (λ _ _. Unit {0}) x
Post-any (ok _, _) = tt
Post-any (err _, _) = tt

conclude-Replays :
    (t : SapTransaction) (now : DateTime) (o : Outcome) (g : Gateway)
    → Post Anything (Replays t.idempotency_key) (conclude t now o g)
unfolding conclude
conclude-Replays t now other_exception g = tt
conclude-Replays t now (integration_error m) g =
    Post-bind Anything (λ _ _. Unit) (Replays t.idempotency_key) _
      (λ u s _.
        Post-bind Anything (λ _ _. Unit) (Replays t.idempotency_key) _ (λ _ _ _. tt) (save u now s)
          (Post-any (save u now s)))
      (entity_result (fail m t) g) (Post-any (entity_result (fail m t) g))
conclude-Replays t now (answer p d) g =
    Post-bind Anything _ (Replays t.idempotency_key) _
      (λ u s f. save_success-Post u p d t.idempotency_key now s f) _ (succeed-Post t p d now g)

-- A call that returns leaves its reply behind under the key of its transaction.
invoke-Replays :
    (t : SapTransaction) (adapter : Adapter) (p : Payload) (now : DateTime) (g : Gateway)
    → Post Anything (Replays t.idempotency_key) (invoke t adapter p now g)
unfolding invoke
invoke-Replays t adapter p now g = elim (Bool-cases (status_is retrying t)) [
  | inl e ↦ rw e (
      Post-bind Anything (λ _ _. Unit) (Replays t.idempotency_key) _
        (λ _ s _.
          conclude-Replays (record t { status = in_progress }) now (adapter p)
            (record s { calls = t.id ∷ s.calls }))
        (save (record t { status = in_progress }) now g)
        (Post-any (save (record t { status = in_progress }) now g)))
  | inr e ↦ rw e (conclude-Replays t now (adapter p) (record g { calls = t.id ∷ g.calls }))
]

abbrev HasKey : Text → SapTransaction → Gateway → Type 0
HasKey key u _ = u.idempotency_key ≡ key

prepare_retry-HasKey :
    (t : SapTransaction) (g : Gateway)
    → Post Anything (HasKey t.idempotency_key) (entity_result (prepare_retry t) g)
unfolding prepare_retry
prepare_retry-HasKey t g = ground arith

start-HasKey :
    (t : SapTransaction) (g : Gateway)
    → Post Anything (HasKey t.idempotency_key) (entity_result (start t) g)
unfolding start
start-HasKey t g = ground arith

-- A write, and then the call for the transaction of the key.
save-invoke-Replays :
    (v : SapTransaction) (key : Text) (adapter : Adapter) (p : Payload) (now : DateTime)
    (g : Gateway)
    → v.idempotency_key ≡ key
    → Post Anything (Replays key) ((save v now >> invoke v adapter p now) g)
save-invoke-Replays v key adapter p now g e =
    Post-bind Anything (λ _ _. Unit) (Replays key) _
      (λ _ s _. rw (← e) (invoke-Replays v adapter p now s)) (save v now g)
      (Post-any (save v now g))

resume_failed-Replays :
    (t : SapTransaction) (p : Payload) (adapter : Adapter) (now : DateTime) (g : Gateway)
    → Post Anything (Replays t.idempotency_key) (resume_failed t p adapter now g)
unfolding resume_failed
resume_failed-Replays t p adapter now g =
    Post-bind Anything (HasKey t.idempotency_key) (Replays t.idempotency_key) _
      (λ u s k.
        save-invoke-Replays (record u { request_payload = p; updated_at = now }) t.idempotency_key
          adapter p now s k)
      (entity_result (prepare_retry t) g) (prepare_retry-HasKey t g)

create_and_start-HasKey :
    (fresh : Uuid) (kind : SapObjectType) (object : Uuid) (key : Text) (p : Payload)
    (now : DateTime) (g : Gateway)
    → Post Anything (HasKey key) (create_and_start fresh kind object key p now g)
unfolding create_and_start new_transaction
create_and_start-HasKey fresh kind object key p now g =
    let t = new_transaction fresh kind object key p now in
    Post-bind Anything (λ _ _. Unit) (HasKey key) _
      (λ _ s _.
        Post-bind Anything (HasKey key) (HasKey key) _
          (λ u r k.
            Post-bind Anything (λ _ _. Unit) (HasKey key) _ (λ _ _ _. k) (save u now r)
              (Post-any (save u now r)))
          (entity_result (start t) s) (start-HasKey t s))
      (save t now g) (Post-any (save t now g))

get_by_idempotency_key-key :
    (key : Text) (rows : List SapTransaction) (t : SapTransaction)
    → get_by_idempotency_key key rows ≡ some t
    → t.idempotency_key ≡ key
unfolding get_by_idempotency_key
get_by_idempotency_key-key key [] t e = cc
get_by_idempotency_key-key key (u ∷ rows) t e =
    ground (arith, get_by_idempotency_key-key key rows t)

handle_existing-Replays :
    (t : SapTransaction) (key : Text) (p : Payload) (adapter : Adapter) (now : DateTime)
    (g : Gateway)
    → get_by_idempotency_key key g.transactions ≡ some t
    → Post Anything (Replays key) (handle_existing t key p adapter now g)
unfolding handle_existing
handle_existing-Replays t key p adapter now g f = elim (Bool-cases (status_is success t)) [
  | inl e ↦ rw e (record { row = t; found = f; succeeded = ground arith; same = refl })
  | inr e ↦ elim (Bool-cases (is_in_flight t)) [
    | inl e₂ ↦ rw (e, e₂) tt
    | inr e₂ ↦ elim (Bool-cases (status_is exhausted t || not (can_retry t))) [
      | inl e₃ ↦ rw (e, e₂, e₃) tt
      | inr e₃ ↦
          rw (e, e₂, e₃)
            (rw (← get_by_idempotency_key-key key g.transactions t f)
              (resume_failed-Replays t p adapter now g))
    ]
  ]
]

execute-Replays :
    (fresh : Uuid) (kind : SapObjectType) (object : Uuid) (key : Text) (p : Payload)
    (adapter : Adapter) (now : DateTime) (g : Gateway)
    → Post Anything (Replays key) (execute fresh kind object key p adapter now g)
unfolding execute execute_found
execute-Replays fresh kind object key p adapter now g =
    elim (Option-cases (get_by_idempotency_key key g.transactions)) [
      | inr (t, f) ↦ rw f (handle_existing-Replays t key p adapter now g f)
      | inl f ↦ rw f (
          Post-bind Anything (HasKey key) (Replays key) _
            (λ t s k. rw (← k) (invoke-Replays t adapter p now s))
            (create_and_start fresh kind object key p now g)
            (create_and_start-HasKey fresh kind object key p now g))
    ]

success_no_retry : (t : SapTransaction) → t.status ≡ success → can_retry t ≡ false
unfolding can_retry
success_no_retry t e = ground arith

replay :
    (key : Text) (reply : Reply) (g : Gateway)
    → Replays key reply g
    → (fresh : Uuid) (kind : SapObjectType) (object : Uuid) (p : Payload) (adapter : Adapter)
      (now : DateTime)
    → execute fresh kind object key p adapter now g ≡ (ok reply, g)
unfolding settled_reply
replay key reply g r fresh kind object p adapter now =
    execute_settled fresh kind object key p adapter now g r.row r.found
      (success_no_retry r.row r.succeeded)
    ∙ rw (r.succeeded, ← r.same) refl

-- `execute` is idempotent: once it has returned a reply for a key, every later `execute` with the
-- key, whatever its payload and its adapter, returns that reply, writes nothing and calls nobody.
pub execute_idempotent :
    (fresh : Uuid) (kind : SapObjectType) (object : Uuid) (key : Text) (p : Payload)
    (adapter : Adapter) (now : DateTime) (g h : Gateway) (reply : Reply)
    → execute fresh kind object key p adapter now g ≡ (ok reply, h)
    → (later : Uuid) (kind₂ : SapObjectType) (object₂ : Uuid) (p₂ : Payload) (adapter₂ : Adapter)
      (now₂ : DateTime)
    → execute later kind₂ object₂ key p₂ adapter₂ now₂ h ≡ (ok reply, h)
execute_idempotent fresh kind object key p adapter now g h reply e =
    replay key reply h (rw e at (execute-Replays fresh kind object key p adapter now g))
