-- ===== src/Integration/Manager.antt =====
-- `SAPTransactionManager` (infrastructure/sap/transaction/sap_transaction_manager.py): the
-- idempotent call of an adapter, its retry and the sweep over the transactions to retry.
-- The adapter is code outside the model: a function from the payload to how the call ended.
-- `datetime.now` and `uuid.uuid4` are arguments; log lines are left out.
use fmms.Prelude.{
  ℕ, Bool, true, false, not, ◌||◌, Option, none, some, List, [], ◌∷◌, Uuid, DateTime, Text,
  text_truthy, member, Result, ok, err, Method, Update, ◌>>=◌, ◌>>◌, pure, get, modify, raise, when,
  if◌then◌else◌,
}
use fmms.Prelude.Json.{Payload, empty}
use fmms.Integration.Transaction
use fmms.Integration.Transaction.{
  SapTransaction, SapTransactionStatus, SapObjectType, SapTransactionStatus-discrete,
  TransactionError, pending, in_progress, success, retrying, exhausted, max_retry_attempts,
  status_is, can_retry, start, succeed, fail, prepare_retry, mark_exhausted,
}
use fmms.Integration.Repository.{
  find_by_id, get_by_idempotency_key, key_taken, update_or_create, list_pending_for_retry,
}

-- How a call of an adapter ends: with an answer, with `SAPIntegrationError`, or with another
-- exception, which the manager does not catch.
pub data Outcome : Type 0 where
  answer : Payload → Text → Outcome
  integration_error : Text → Outcome
  other_exception : Outcome

abbrev pub Adapter : Type 0
Adapter = Payload → Outcome

-- The table of transactions, and the calls that SAP has received, each with the transaction for
-- which it was made, the last one first.
pub record Gateway : Type 0 where
  pub transactions : List SapTransaction
  pub calls : List Uuid

pub data ManagerError : Type 0 where
  transaction_error : TransactionError → ManagerError
  not_found : Uuid → ManagerError
  idempotency : Text → Uuid → ManagerError
  exhausted_error : Uuid → ℕ → ManagerError
  sap_error : Text → ManagerError
  uncaught : ManagerError
  integrity_error : Text → ManagerError

-- The answer of a call: the response and the SAP document number.
abbrev pub Reply : Type 0
Reply = Payload × Text

abbrev pub Call : Type 0 → Type 0
Call A = Method Gateway ManagerError A

-- How a method of the entity ends, on an object that is not in the table.
abbrev pub entity_result : Result TransactionError (Unit {0}) × SapTransaction → Call SapTransaction
entity_result (ok _, t) = pure t
entity_result (err e, _) = raise (transaction_error e)

abbrev pub entity : Update SapTransaction TransactionError → SapTransaction → Call SapTransaction
entity m t = entity_result (m t)

-- `self._repo.save(transaction)`
unfoldable pub save : SapTransaction → DateTime → Update Gateway ManagerError
save t now = do
  g ← get
  when (key_taken t g.transactions) (raise (integrity_error t.idempotency_key))
  modify (λ h. record h { transactions = update_or_create t now h.transactions })

-- The adapter call reaches SAP.
abbrev pub record_call : SapTransaction → Update Gateway ManagerError
record_call t = modify (λ g. record g { calls = t.id ∷ g.calls })

-- `try: ... except SAPIntegrationError`, and what follows it in `_invoke`.
unfoldable pub conclude : SapTransaction → DateTime → Outcome → Call Reply
conclude t now (integration_error message) = do
  u ← entity (fail message) t
  save u now
  raise (sap_error message)
conclude t now (answer response document) = do
  u ← entity (succeed response (if text_truthy document then some document else none) now) t
  save u now
  pure (response, document)
conclude t now other_exception = raise uncaught

-- `_invoke`
unfoldable pub invoke : SapTransaction → Adapter → Payload → DateTime → Call Reply
invoke t adapter payload now =
    let u = if status_is retrying t then record t { status = in_progress } else t in
    do when (status_is retrying t) (save u now); record_call u; conclude u now (adapter payload)

-- `existing.response_payload or {}`
abbrev pub payload_or_empty : Option Payload → Payload
payload_or_empty none = empty
payload_or_empty (some p) = p

-- `existing.sap_document_number or ""`
abbrev pub text_or_empty : Option Text → Text
text_or_empty none = []
text_or_empty (some t) = t

-- `existing.status in (PENDING, IN_PROGRESS, RETRYING)`
unfoldable pub is_in_flight : SapTransaction → Bool
is_in_flight t =
    member SapTransactionStatus-discrete t.status (pending ∷ in_progress ∷ retrying ∷ [])

-- The end of `_handle_existing`: a FAILED transaction goes through the retry state machine.
unfoldable pub resume_failed : SapTransaction → Payload → Adapter → DateTime → Call Reply
resume_failed t payload adapter now = do
  u ← entity prepare_retry t
  save (record u { request_payload = payload; updated_at = now }) now
  invoke (record u { request_payload = payload; updated_at = now }) adapter payload now

-- `_handle_existing`
unfoldable pub handle_existing : SapTransaction → Text → Payload → Adapter → DateTime → Call Reply
handle_existing t key payload adapter now =
    if status_is success t
    then pure (payload_or_empty t.response_payload, text_or_empty t.sap_document_number)
    else if is_in_flight t
    then raise (idempotency key t.id)
    else if status_is exhausted t || not (can_retry t)
    then raise (exhausted_error t.id t.max_retries)
    else resume_failed t payload adapter now

-- The transaction that `_create_and_start` makes; `fresh` is the value of `uuid.uuid4()`.
unfoldable pub new_transaction :
    Uuid → SapObjectType → Uuid → Text → Payload → DateTime → SapTransaction
new_transaction fresh kind object key payload now = record {
  id = fresh;
  object_type = kind;
  object_id = object;
  idempotency_key = key;
  status = pending;
  created_at = now;
  updated_at = now;
  retry_count = 0;
  max_retries = max_retry_attempts;
  request_payload = payload;
  response_payload = none;
  sap_document_number = none;
  error_message = none;
  completed_at = none;
}

-- `_create_and_start`
unfoldable pub create_and_start :
    Uuid → SapObjectType → Uuid → Text → Payload → DateTime → Call SapTransaction
create_and_start fresh kind object key payload now = do
  let t = new_transaction fresh kind object key payload now
  save t now
  u ← entity start t
  save u now
  pure u

-- What `execute` does with the transaction that it has found for the key.
unfoldable pub execute_found :
    Uuid
    → SapObjectType
    → Uuid
    → Text
    → Payload
    → Adapter
    → DateTime
    → Option SapTransaction
    → Call Reply
execute_found fresh kind object key payload adapter now (some t) =
    handle_existing t key payload adapter now
execute_found fresh kind object key payload adapter now none = do
  t ← create_and_start fresh kind object key payload now
  invoke t adapter payload now

-- `execute`
unfoldable pub execute :
    Uuid → SapObjectType → Uuid → Text → Payload → Adapter → DateTime → Call Reply
execute fresh kind object key payload adapter now = do
  g ← get
  execute_found fresh kind object key payload adapter now
      (get_by_idempotency_key key g.transactions)

-- The branch of `retry` for a transaction that cannot be retried.
unfoldable pub give_up : SapTransaction → DateTime → Call Reply
give_up t now = do
  u ← entity (mark_exhausted now) t
  save u now
  raise (exhausted_error u.id u.max_retries)

-- The branch of `retry` for a transaction that can.
unfoldable pub resubmit : SapTransaction → Adapter → DateTime → Call Reply
resubmit t adapter now = do
  u ← entity prepare_retry t
  save u now
  invoke u adapter u.request_payload now

unfoldable pub retry_found : Uuid → Adapter → DateTime → Option SapTransaction → Call Reply
retry_found i adapter now none = raise (not_found i)
retry_found i adapter now (some t) =
    if not (can_retry t) then give_up t now else resubmit t adapter now

-- `retry`
unfoldable pub retry : Uuid → Adapter → DateTime → Call Reply
retry i adapter now = do g ← get; retry_found i adapter now (find_by_id i g.transactions)

-- `except (SAPRetryExhaustedError, SAPIntegrationError)` in the sweep; the entity raises a
-- `SAPRetryExhaustedError` too.
unfoldable pub caught : ManagerError → Bool
caught (exhausted_error i n) = true
caught (sap_error m) = true
caught (transaction_error (Transaction.retry_exhausted i n)) = true
caught _ = false

-- A `try` whose handler only logs.
unfoldable pub handled :
    Result ManagerError Reply × Gateway → Result ManagerError (Unit {0}) × Gateway
handled (ok _, g) = (ok tt, g)
handled (err e, g) = if caught e then (ok tt, g) else (err e, g)

-- One round of the loop of `retry_all_pending`.
unfoldable pub sweep_one : DateTime → SapTransaction → Option Adapter → Update Gateway ManagerError
sweep_one now t none g = (ok tt, g)
sweep_one now t (some adapter) g = handled (retry t.id adapter now g)

-- The loop; the adapters are a dict, and the time is that of each round.
unfoldable pub sweep :
    (SapObjectType → Option Adapter) → DateTime → List SapTransaction → Update Gateway ManagerError
sweep adapters now [] = pure tt
sweep adapters now (t ∷ rows) =
    let rest = sweep adapters now rows in sweep_one now t (adapters t.object_type) >> rest

-- `retry_all_pending`
unfoldable pub retry_all_pending :
    (SapObjectType → Option Adapter) → DateTime → Update Gateway ManagerError
retry_all_pending adapters now = do
  g ← get
  sweep adapters now (list_pending_for_retry g.transactions)
