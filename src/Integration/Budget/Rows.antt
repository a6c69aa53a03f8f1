-- ===== src/Integration/Budget/Rows.antt =====
-- The budget of a row, and the writes that keep it.
use fmms.Prelude.{
  ℕ, suc, ◌+◌, ◌≤◌, ◌≡◌, ◌≢◌, inl, inr, refl, Option, none, some, List, [], ◌∷◌, ◌==◌, Uuid,
  DateTime, Text, Post, Bool-cases, ℕ_discrete, if◌then◌else◌, arith,
}
use fmms.Integration.Transaction.{SapTransaction, max_retry_attempts}
use fmms.Integration.Repository.{
  find_by_id, get_by_idempotency_key, key_taken, update_or_create, stored, kept_created,
  find_by_id-update_ne, find_by_id-update_self,
}
use fmms.Integration.Manager.{Gateway, save}

-- How often an id is in a list.
unfoldable pub count : Uuid → List Uuid → ℕ
count i [] = 0
count i (x ∷ l) = let rest = count i l in if x == i then suc rest else rest

pub count_self : (i : Uuid) (l : List Uuid) → count i (i ∷ l) ≡ suc (count i l)
unfolding count
count_self i l = ground arith

pub count_ne : (i j : Uuid) (l : List Uuid) → j ≢ i → count i (j ∷ l) ≡ count i l
unfolding count
count_ne i j l h = ground arith

-- No two rows have one id: it is the primary key.
abbrev pub IsKeyed : List SapTransaction → Type 0
IsKeyed [] = Unit
IsKeyed (t ∷ rows) = (find_by_id t.id rows ≡ none) × IsKeyed rows

-- A row within its budget, after so many calls.
abbrev pub InBudget : SapTransaction → ℕ → Type 0
InBudget t n =
    (n ≤ t.retry_count + 1) × (t.retry_count ≤ t.max_retries) × (t.max_retries ≡ max_retry_attempts)

abbrev pub Within : Option SapTransaction → ℕ → Type 0
Within none n = n ≡ 0
Within (some t) n = InBudget t n

pub record IsBounded (g : Gateway) : Type 0 where
  pub keyed : IsKeyed g.transactions
  pub within : (i : Uuid) → Within (find_by_id i g.transactions) (count i g.calls)

pub update_or_create-IsKeyed :
    (t : SapTransaction) (now : DateTime) (rows : List SapTransaction)
    → IsKeyed rows
    → IsKeyed (update_or_create t now rows)
unfolding update_or_create stored find_by_id
update_or_create-IsKeyed t now [] h = (refl, tt)
update_or_create-IsKeyed t now (u ∷ rows) h =
    ground (arith, update_or_create-IsKeyed t now rows h.1, find_by_id-update_ne u.id t now rows)

pub find_by_id-get_by_idempotency_key :
    (k : Text) (rows : List SapTransaction) (t : SapTransaction)
    → IsKeyed rows
    → get_by_idempotency_key k rows ≡ some t
    → find_by_id t.id rows ≡ some t
unfolding get_by_idempotency_key find_by_id
find_by_id-get_by_idempotency_key k [] t h e = cc
find_by_id-get_by_idempotency_key k (u ∷ rows) t h e =
    ground (arith, find_by_id-get_by_idempotency_key k rows t h.1)

-- The transaction has its row, and a call is still open to it.
pub record IsArmed (t : SapTransaction) (g : Gateway) : Type 0 where
  pub bounded : IsBounded g
  pub open_calls : count t.id g.calls ≤ t.retry_count
  pub budget : InBudget t (count t.id g.calls)
  pub row :
      (r : SapTransaction) × (find_by_id t.id g.transactions ≡ some r)
      × (r.retry_count ≡ t.retry_count)
      × (r.max_retries ≡ t.max_retries)

pub Within-update :
    (t : SapTransaction) (now : DateTime) (g : Gateway)
    → IsBounded g
    → InBudget t (count t.id g.calls)
    → (i : Uuid) → Within (find_by_id i (update_or_create t now g.transactions)) (count i g.calls)
unfolding stored
Within-update t now g h b i = elim (ℕ_discrete t.id i) [
  | yes p ↦ rw (← p, find_by_id-update_self t now g.transactions) b
  | no p ↦ rw (find_by_id-update_ne i t now g.transactions p) (h.within i)
]

pub update-IsBounded :
    (t : SapTransaction) (now : DateTime) (g : Gateway)
    → IsBounded g
    → InBudget t (count t.id g.calls)
    → IsBounded (record g { transactions = update_or_create t now g.transactions })
update-IsBounded t now g h b = record {
  keyed = update_or_create-IsKeyed t now g.transactions h.keyed;
  within = Within-update t now g h b;
}

-- After a `save` that returns, the row holds the budget of the transaction.
pub save-Post :
    (t : SapTransaction) (now : DateTime) (g : Gateway)
    → IsBounded g
    → InBudget t (count t.id g.calls)
    → Post IsBounded
        (λ _ s.
          IsBounded s
          × (s.calls ≡ g.calls)
          × (find_by_id t.id s.transactions ≡ some (stored t (kept_created t g.transactions) now)))
        (save t now g)
unfolding save
save-Post t now g h b = elim (Bool-cases (key_taken t g.transactions)) [
  | inl e ↦ rw e h
  | inr e ↦ rw e (update-IsBounded t now g h b, refl, find_by_id-update_self t now g.transactions)
]
