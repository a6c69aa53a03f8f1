-- ===== src/Integration/Budget.antt =====
-- How often SAP is called for one transaction, over any history of requests to the manager.
use fmms.Prelude.{
  ℕ, ◌+◌, ◌≤◌, ◌≡◌, refl, Option, none, some, List, [], ◌∷◌, Uuid, DateTime, Text, arith,
  Option-cases,
}
use fmms.Prelude.Json.{Payload}
use fmms.Integration.Transaction.{SapTransaction, SapObjectType}
use fmms.Integration.Repository.{find_by_id}
use fmms.Integration.Manager
use fmms.Integration.Manager.{Gateway, Adapter}
pub mod Rows
pub mod Invoke
pub mod Requests
use Rows.{count, IsBounded, Within}
use Requests.{execute-IsBounded, retry-IsBounded, retry_all_pending-IsBounded}

-- A call of an entry point of the manager, with the values that it takes from outside.
pub data Request : Type 0 where
  execute : Uuid → SapObjectType → Uuid → Text → Payload → Adapter → DateTime → Request
  retry : Uuid → Adapter → DateTime → Request
  retry_all_pending : (SapObjectType → Option Adapter) → DateTime → Request

-- The gateway after a request, whether it returned or raised.
unfoldable pub serve : Request → Gateway → Gateway
serve (execute fresh kind object key p adapter now) g =
    (Manager.execute fresh kind object key p adapter now g).1
serve (retry i adapter now) g = (Manager.retry i adapter now g).1
serve (retry_all_pending adapters now) g = (Manager.retry_all_pending adapters now g).1

unfoldable pub serve_all : List Request → Gateway → Gateway
serve_all [] g = g
serve_all (r ∷ rs) g = serve_all rs (serve r g)

-- `uuid4` gives an id that no row has.
abbrev pub IsFresh : Request → Gateway → Type 0
IsFresh (execute fresh kind object key p adapter now) g = find_by_id fresh g.transactions ≡ none
IsFresh (retry i adapter now) g = Unit
IsFresh (retry_all_pending adapters now) g = Unit

abbrev pub AllFresh : List Request → Gateway → Type 0
AllFresh [] g = Unit
AllFresh (r ∷ rs) g = IsFresh r g × AllFresh rs (serve r g)

abbrev pub empty_gateway : Gateway
empty_gateway = record { transactions = []; calls = [] }

pub serve-IsBounded :
    (r : Request) (g : Gateway) → IsFresh r g → IsBounded g → IsBounded (serve r g)
unfolding serve
serve-IsBounded (execute fresh kind object key p adapter now) g f h =
    execute-IsBounded fresh kind object key p adapter now g h f
serve-IsBounded (retry i adapter now) g f h = retry-IsBounded i adapter now g h
serve-IsBounded (retry_all_pending adapters now) g f h =
    retry_all_pending-IsBounded adapters now g h

pub serve_all-IsBounded :
    (rs : List Request) (g : Gateway) → AllFresh rs g → IsBounded g → IsBounded (serve_all rs g)
unfolding serve_all
serve_all-IsBounded [] g f h = h
serve_all-IsBounded (r ∷ rs) g f h =
    serve_all-IsBounded rs (serve r g) f.1 (serve-IsBounded r g f.0 h)

Within-four : (o : Option SapTransaction) (n : ℕ) → Within o n → n ≤ 4
Within-four none n h = omega arith
Within-four (some t) n h = omega arith

empty-IsBounded : IsBounded empty_gateway
unfolding find_by_id count
empty-IsBounded = record { keyed = tt; within = λ i. refl }

-- Over any history of requests that begins with an empty table, with new ids for new transactions
-- and whatever the adapters answer, SAP is called at most four times for a transaction: the first
-- attempt and `MAX_RETRY_ATTEMPTS` retries.
pub calls_bounded :
    (rs : List Request)
    → AllFresh rs empty_gateway
    → (i : Uuid) → count i (serve_all rs empty_gateway).calls ≤ 4
calls_bounded rs f i =
    let h = serve_all-IsBounded rs empty_gateway f empty-IsBounded in Within-four _ _ (h.within i)
