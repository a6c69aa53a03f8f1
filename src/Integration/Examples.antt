-- ===== src/Integration/Examples.antt =====
-- Requests to the manager that are served: tests of its methods, and the theorems at concrete
-- gateways.
use fmms.Prelude.{ℕ_discrete, ◌≡◌, ◌≤◌, refl, some, List, [], ◌∷◌, Text, Text-discrete, ok, err}
use fmms.Prelude.Json.{Payload, empty, entry, null}
use fmms.Integration.Transaction
use fmms.Integration.Transaction.{
  SapTransaction, SapTransactionStatus-discrete, vehicle, fault, exhausted, in_progress, can_retry,
  start, succeed, fail, prepare_retry, mark_exhausted,
}
use fmms.Integration.Repository.{
  find_by_id, get_by_idempotency_key, key_taken, update_or_create, stored, list_pending_for_retry,
}
use fmms.Integration.Manager.{
  Gateway, Adapter, answer, integration_error, other_exception, save, conclude, invoke,
  is_in_flight, resume_failed, handle_existing, new_transaction, create_and_start, execute_found,
  execute, give_up, resubmit, retry_found, retry, caught, handled, sweep_one, sweep,
  retry_all_pending, idempotency,
}
use fmms.Integration.Budget.{Request, serve, serve_all, empty_gateway, calls_bounded}
use fmms.Integration.Budget.Rows.{count}
use fmms.Integration.Replay.{settled_reply, execute_settled, execute_idempotent}

abbrev key : Text
key = 118 ∷ 58 ∷ 49 ∷ []

abbrev body : Payload
body = entry (105 ∷ []) null empty

abbrev failing : Adapter
failing p = integration_error (98 ∷ [])

abbrev answering : Adapter
answering p = answer p (52 ∷ 50 ∷ [])

abbrev crashing : Adapter
crashing p = other_exception

-- SAP is down: a first call, two retries, a sweep, another retry and another call.
abbrev requests : List Request
requests =
    Request.execute 7 vehicle 1 key body failing 10
    ∷ Request.retry 7 failing 20
    ∷ Request.retry 7 failing 30
    ∷ Request.retry_all_pending (λ _. some failing) 40
    ∷ Request.retry 7 failing 50
    ∷ Request.execute 8 vehicle 1 key body failing 60
    ∷ []

-- The bound is reached.
four_calls : count 7 (serve_all requests empty_gateway).calls ≡ 4
unfolding serve_all serve execute execute_found create_and_start new_transaction save key_taken
    update_or_create stored start Transaction.transition_to invoke conclude fail succeed retry
    retry_found resubmit give_up mark_exhausted prepare_retry can_retry retry_all_pending sweep
    sweep_one handled caught list_pending_for_retry handle_existing is_in_flight resume_failed
    find_by_id get_by_idempotency_key SapTransactionStatus-discrete Text-discrete ℕ_discrete count
four_calls = refl

calls_bounded_example : count 7 (serve_all requests empty_gateway).calls ≤ 4
unfolding serve_all serve execute execute_found create_and_start new_transaction save key_taken
    update_or_create stored start Transaction.transition_to invoke conclude fail succeed retry
    retry_found resubmit give_up mark_exhausted prepare_retry can_retry retry_all_pending sweep
    sweep_one handled caught list_pending_for_retry handle_existing is_in_flight resume_failed
    find_by_id get_by_idempotency_key SapTransactionStatus-discrete Text-discrete ℕ_discrete
calls_bounded_example = calls_bounded requests (refl, (tt, (tt, (tt, (tt, (refl, tt)))))) 7

-- The gateway after a call that SAP has answered.
abbrev answered : Gateway
answered = (execute 7 vehicle 1 key body answering 10 empty_gateway).1

-- The gateway after a call whose adapter crashed.
abbrev crashed : Gateway
crashed = (execute 7 vehicle 1 key body crashing 10 empty_gateway).1

-- The transaction that the crash leaves behind.
abbrev stuck : SapTransaction
stuck = record (new_transaction 7 vehicle 1 key body 10) { status = in_progress }

execute_idempotent_example :
    execute 9 fault 2 key empty failing 30 answered ≡ (ok (body, 52 ∷ 50 ∷ []), answered)
unfolding execute execute_found create_and_start new_transaction save key_taken update_or_create
    stored start Transaction.transition_to invoke conclude succeed get_by_idempotency_key
    SapTransactionStatus-discrete Text-discrete ℕ_discrete
execute_idempotent_example =
    execute_idempotent 7 vehicle 1 key body answering 10 empty_gateway answered (body, 52 ∷ 50 ∷ [])
      refl 9 fault 2 empty failing 30

execute_settled_example :
    execute 8 vehicle 1 key body answering 30 crashed
    ≡ (settled_reply key stuck in_progress, crashed)
unfolding execute execute_found create_and_start new_transaction save key_taken update_or_create
    stored start Transaction.transition_to invoke conclude can_retry get_by_idempotency_key
    SapTransactionStatus-discrete Text-discrete ℕ_discrete
execute_settled_example = execute_settled 8 vehicle 1 key body answering 30 crashed stuck refl refl

-- The key is refused from then on.
stuck_refused : settled_reply key stuck in_progress ≡ err (idempotency key 7)
unfolding settled_reply new_transaction
stuck_refused = refl
