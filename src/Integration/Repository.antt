-- ===== src/Integration/Repository.antt =====
-- The table of SAP transactions, `DjangoSAPTransactionRepository`
-- (apps/integration/infrastructure/repositories.py): the rows in the order in which they were
-- inserted. A call of the ORM is the look-up or the write that it stands for.
use fmms.Prelude.{
  blank_to_none, Bool, true, false, not, ◌&&◌, ◌≡◌, ◌≢◌, Option, none, some, List, [], ◌∷◌, ◌==◌,
  Uuid, DateTime, Text, Text-discrete, is, ltb, if◌then◌else◌, arith,
}
use fmms.Integration.Transaction.{
  SapTransaction, SapTransactionStatus-discrete, failed, max_retry_attempts, status_is,
}

-- `get_by_id`, whose `none` is `SAPTransactionNotFoundError`.
unfoldable pub find_by_id : Uuid → List SapTransaction → Option SapTransaction
find_by_id i [] = none
find_by_id i (t ∷ rows) = if t.id == i then some t else find_by_id i rows

-- `get_by_idempotency_key`
unfoldable pub get_by_idempotency_key : Text → List SapTransaction → Option SapTransaction
unfolding Text-discrete
get_by_idempotency_key k [] = none
get_by_idempotency_key k (t ∷ rows) =
    if is Text-discrete t.idempotency_key k then some t else get_by_idempotency_key k rows

-- What a row holds after `save`: the blank texts, the time of the write, and the time of creation,
-- which an update leaves alone.
unfoldable pub stored : SapTransaction → DateTime → DateTime → SapTransaction
stored t created now = record t {
  sap_document_number = blank_to_none t.sap_document_number;
  error_message = blank_to_none t.error_message;
  created_at = created;
  updated_at = now;
}

-- Another row has the key: `UniqueConstraint(fields=["idempotency_key"])`.
unfoldable pub key_taken : SapTransaction → List SapTransaction → Bool
unfolding Text-discrete
key_taken t [] = false
key_taken t (u ∷ rows) =
    if is Text-discrete u.idempotency_key t.idempotency_key && not (u.id == t.id)
    then true
    else key_taken t rows

-- `update_or_create(id=txn.id, defaults=...)`
unfoldable pub update_or_create :
    SapTransaction → DateTime → List SapTransaction → List SapTransaction
unfolding stored
update_or_create t now [] = stored t t.created_at now ∷ []
update_or_create t now (u ∷ rows) =
    if u.id == t.id then stored t u.created_at now ∷ rows else u ∷ update_or_create t now rows

-- `list_pending_for_retry`: the budget is the constant, not the row's `max_retries`.
unfoldable pub list_pending_for_retry : List SapTransaction → List SapTransaction
unfolding SapTransactionStatus-discrete
list_pending_for_retry [] = []
list_pending_for_retry (t ∷ rows) =
    let rest = list_pending_for_retry rows in
    if status_is failed t && ltb t.retry_count max_retry_attempts then t ∷ rest else rest

pub find_by_id-id :
    (i : Uuid) (rows : List SapTransaction) {t : SapTransaction}
    → find_by_id i rows ≡ some t
    → t.id ≡ i
unfolding find_by_id
find_by_id-id i [] h = cc
find_by_id-id i (u ∷ rows) {t} h = ground (arith, find_by_id-id i rows {t = t})

pub find_by_id-update_ne :
    (i : Uuid) (t : SapTransaction) (now : DateTime) (rows : List SapTransaction)
    → t.id ≢ i
    → find_by_id i (update_or_create t now rows) ≡ find_by_id i rows
unfolding find_by_id update_or_create
find_by_id-update_ne i t now [] h = ground arith
find_by_id-update_ne i t now (u ∷ rows) h = ground (arith, find_by_id-update_ne i t now rows)

-- The creation time that a write keeps.
unfoldable pub kept_created : SapTransaction → List SapTransaction → DateTime
kept_created t [] = t.created_at
kept_created t (u ∷ rows) = if u.id == t.id then u.created_at else kept_created t rows

pub find_by_id-update_self :
    (t : SapTransaction) (now : DateTime) (rows : List SapTransaction)
    → find_by_id t.id (update_or_create t now rows) ≡ some (stored t (kept_created t rows) now)
unfolding find_by_id update_or_create kept_created
find_by_id-update_self t now [] = ground arith
find_by_id-update_self t now (u ∷ rows) = ground (arith, find_by_id-update_self t now rows)
