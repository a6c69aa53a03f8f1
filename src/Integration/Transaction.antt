-- ===== src/Integration/Transaction.antt =====
-- The aggregate `SAPTransaction` (apps/integration/domain/entities.py).
use fmms.Prelude.{
  ℕ, ◌+◌, Bool, not, ◌&&◌, Option, none, some, List, [], ◌∷◌, Uuid, DateTime, Text, is, member, ltb,
  leb, Update, ◌>>=◌, ◌>>◌, get, modify, raise, when,
}
use fmms.Prelude.Json.{Payload}

pub data SapTransactionStatus : Type 0 where
  pending in_progress success failed retrying exhausted : SapTransactionStatus

unfoldable pub SapTransactionStatus-discrete : Discrete SapTransactionStatus
SapTransactionStatus-discrete = hlevel

pub data SapObjectType : Type 0 where
  vehicle fault repair_order pm_work_order measurement_document : SapObjectType
  vehicle_assignment purchase_requisition purchase_order : SapObjectType
  goods_receipt goods_issue : SapObjectType

-- `_ALLOWED_TRANSITIONS`
unfoldable pub allowed_transitions : SapTransactionStatus → List SapTransactionStatus
allowed_transitions pending = in_progress ∷ []
allowed_transitions in_progress = success ∷ failed ∷ []
allowed_transitions failed = retrying ∷ exhausted ∷ []
allowed_transitions retrying = in_progress ∷ exhausted ∷ []
allowed_transitions success = []
allowed_transitions exhausted = []

-- `MAX_RETRY_ATTEMPTS`
abbrev pub max_retry_attempts : ℕ
max_retry_attempts = 3

pub record SapTransaction : Type 0 where
  pub id : Uuid
  pub object_type : SapObjectType
  pub object_id : Uuid
  pub idempotency_key : Text
  pub status : SapTransactionStatus
  pub created_at : DateTime
  pub updated_at : DateTime
  pub retry_count : ℕ
  pub max_retries : ℕ
  pub request_payload : Payload
  pub response_payload : Option Payload
  pub sap_document_number : Option Text
  pub error_message : Option Text
  pub completed_at : Option DateTime

-- The exceptions of the methods: the `ValueError` of `_transition_to`, `SAPRetryExhaustedError`.
pub data TransactionError : Type 0 where
  value_error : SapTransactionStatus → SapTransactionStatus → TransactionError
  retry_exhausted : Uuid → ℕ → TransactionError

abbrev pub status_is : SapTransactionStatus → SapTransaction → Bool
status_is s t = is SapTransactionStatus-discrete t.status s

-- `_transition_to`
unfoldable pub transition_to : SapTransactionStatus → Update SapTransaction TransactionError
unfolding allowed_transitions SapTransactionStatus-discrete
transition_to target = do
  t ← get
  when (not (member SapTransactionStatus-discrete target (allowed_transitions t.status)))
      (raise (value_error t.status target))
  modify (λ u. record u { status = target })

unfoldable pub start : Update SapTransaction TransactionError
unfolding transition_to
start = transition_to in_progress

unfoldable pub succeed : Payload → Option Text → DateTime → Update SapTransaction TransactionError
unfolding transition_to
succeed response document at = do
  transition_to success
  modify (λ t. record t {
    response_payload = some response;
    sap_document_number = document;
    completed_at = some at;
    error_message = none;
  })

unfoldable pub fail : Text → Update SapTransaction TransactionError
unfolding transition_to
fail message = do transition_to failed; modify (λ t. record t { error_message = some message })

unfoldable pub prepare_retry : Update SapTransaction TransactionError
unfolding transition_to
prepare_retry = do
  t ← get
  when (leb t.max_retries t.retry_count) (raise (retry_exhausted t.id t.max_retries))
  transition_to retrying
  modify (λ u. record u { retry_count = u.retry_count + 1 })

unfoldable pub mark_exhausted : DateTime → Update SapTransaction TransactionError
unfolding transition_to
mark_exhausted at = do transition_to exhausted; modify (λ t. record t { completed_at = some at })

unfoldable pub is_terminal : SapTransaction → Bool
unfolding SapTransactionStatus-discrete
is_terminal t = member SapTransactionStatus-discrete t.status (success ∷ exhausted ∷ [])

unfoldable pub can_retry : SapTransaction → Bool
unfolding SapTransactionStatus-discrete
can_retry t = status_is failed t && ltb t.retry_count t.max_retries
