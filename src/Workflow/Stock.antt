-- ===== src/Workflow/Stock.antt =====
-- What the decision on the availability of parts returns.
use fmms.Prelude.{
  ◌≡◌, ◌∙◌, refl, sym, Bool, true, not, ◌&&◌, ◌||◌, map, Option, none, some, List, [], ◌∷◌, Uuid,
  DateTime, All, Result, ok, err, when, raise, ◌>>=◌, pure, Post, Post-bind, is, arith,
}
use std.Path.{subst}
use fmms.Prelude.Decimals.{decimal_ltb}
use fmms.Material
use fmms.Material.{
  MaterialRequest, MaterialRequestItem, MaterialRequestStatus, MaterialItemDecision,
  MaterialItemDecision-discrete, MaterialRequestStatus-discrete, from_stock, purchase, pending,
  MaterialItemStatus, ready, to_purchase, waiting,
}
use fmms.Workflow.Database.{
  Database, Call, ServiceError, save_material, record_event, material_id, rejected,
  material_request_invalid_state,
}
use fmms.Repair.Event.{material_approved}
use fmms.Workflow.Decided.{settle_loaded, follow_up, loaded, left_materials}
use fmms.Workflow.Stored.{stored_material}
use fmms.Workflow.Table.{find, put}
use fmms.Workflow.Purchases.{Alphabet}
use fmms.Workflow.Parts.{
  CentralStock, ItemDecision, PartsDecision, decision_on, check_stock, decided, decide_item,
  decide_items, header_status, conclude, decide_parts, validate_decisions, issue_when, items_with,
  create_lines, record_status,
}
use fmms.Workflow.Settled.{
  last_sent, sent_decision, status_for, undecided, HasStatus, header_status-HasStatus,
}

-- What a service returns is like this, where it returns.
pub record Returns {A : Type 0} (Q : A → Type 0) (m : Call A) : Type 0 where
  pub at : (db : Database) → Post (λ _. Unit {0}) (λ a _. Q a) (m db)

module _ {A B : Type 0} {m : Call A} {k : A → Call B} {R : B → Type 0} where
  Returns-bind :
      {Q : A → Type 0} → Returns Q m → ((a : A) → Q a → Returns R (k a)) → Returns R (m >>= k)
  Returns-bind q f = record {
    at = λ db. Post-bind _ _ _ k (λ a s h. (f a h).at s) (m db) (q.at db);
  }

any_call : {A : Type 0} (m : Call A) → Returns (λ _. Unit {0}) m
any_call m = record { at = λ db. go (m db) }
  where
    go :
        {A : Type 0} (x : Result ServiceError A × Database)
        → Post (λ _. Unit {0}) (λ _ _. Unit {0}) x
    go (ok a, d) = tt
    go (err e, d) = tt

Returns-any :
    {A B : Type 0} (m : Call A) {k : A → Call B} {R : B → Type 0}
    → ((a : A) → Returns R (k a))
    → Returns R (m >>= k)
Returns-any m f = Returns-bind (any_call m) λ a _. f a

Returns-pure : {A : Type 0} {Q : A → Type 0} (a : A) → Q a → Returns Q (pure a)
Returns-pure a h = record { at = λ db. h }

module _ (x : CentralStock) (enforce : Bool) (ds : List ItemDecision) where
  -- An item that is to come from stock, where the stock is checked, is of the catalog, in SAP and of
  -- the request, and the stock has as much of it as is requested.
  unfoldable pub is_covered : MaterialRequestItem → Bool
  unfolding MaterialItemDecision-discrete
  is_covered i =
      not enforce
      || not (is MaterialItemDecision-discrete i.decision from_stock)
      || (x.material_exists i.material_number
          && i.from_catalog
          && not (decimal_ltb (x.get_available_quantity i.material_number) i.quantity))

  -- The item has the decision that was sent last for it, the status that belongs to the decision and
  -- the quantity in stock, and is covered.
  abbrev pub Settled : MaterialRequestItem → Type 0
  Settled i =
      (last_sent i.id none ds ≡ some i.decision)
      × (i.item_status ≡ status_for i.decision)
      × (i.available_quantity_snapshot ≡ some (x.get_available_quantity i.material_number))
      × (is_covered i ≡ true)

  -- What becomes of an item: a settled one that differs in nothing but what a decision writes.
  abbrev SettledFrom : MaterialRequestItem → MaterialRequestItem → Type 0
  SettledFrom i j = Settled j × (undecided j ≡ undecided i)

  decided-Settled :
      (i : MaterialRequestItem) (d : MaterialItemDecision)
      → last_sent i.id none ds ≡ some d
      → Returns (SettledFrom i) (decided x enforce i d)
  unfolding decided check_stock is_covered
  decided-Settled i from_stock h = record { at = λ db. ground (arith, h) }
  decided-Settled i purchase h = record { at = λ db. ground (arith, h) }
  decided-Settled i pending h = record { at = λ db. ground (arith, h) }

  decide_item-Settled :
      (i : MaterialRequestItem) (o : Option MaterialItemDecision)
      → last_sent i.id none ds ≡ o
      → Returns (SettledFrom i) (decide_item x enforce i o)
  unfolding decide_item
  decide_item-Settled i none h = record { at = λ db. tt }
  decide_item-Settled i (some d) h = decided-Settled i d h

  decide_items-Settled :
      (l : List MaterialRequestItem)
      → Returns
          (λ k. All Settled k × (map undecided k ≡ map undecided l))
          (decide_items x enforce ds l)
  unfolding decide_items
  decide_items-Settled [] = record { at = λ db. (tt, refl) }
  decide_items-Settled (i ∷ l) =
      Returns-bind (decide_item-Settled i (decision_on i.id ds) (sent_decision i.id ds)) λ j (h, e).
        Returns-bind (decide_items-Settled l)
          λ rest (hs, es). Returns-pure (j ∷ rest) ((h, hs), cc (e, es))

conclude-Returns :
    (now : DateTime) (r : MaterialRequest) (l : List MaterialRequestItem)
    → Returns (λ s. (s.items ≡ l) × (s.status ≡ header_status l)) (conclude now r l)
unfolding conclude Material.approve Material.transition_to
conclude-Returns now r l = record { at = λ db. ground arith }

follow_up-Returns :
    (a : Alphabet) (id_of : Uuid → Uuid) (fresh : Uuid) (d : PartsDecision) (now : DateTime)
    (s : MaterialRequest) {Q : MaterialRequest → Type 0}
    → Q s
    → Returns Q (follow_up a id_of fresh d now s)
follow_up-Returns a id_of fresh d now s q =
    Returns-any (issue_when (items_with from_stock s.items) s.id) λ _.
      Returns-any (create_lines a id_of fresh s d.decided_by now (items_with purchase s.items)) λ _.
        Returns-any (record_event s.repair_order_id material_approved (some d.decided_by) now)
          λ _. Returns-any (record_status s d.decided_by now) λ _. Returns-pure s q

settle_loaded-Returns :
    (x : CentralStock) (a : Alphabet) (id_of : Uuid → Uuid) (fresh : Uuid) (d : PartsDecision)
    (now : DateTime) (r : MaterialRequest)
    → Returns
        (λ s.
          All (Settled x d.enforce_stock_check d.items) s.items
          × (map undecided s.items ≡ map undecided r.items)
          × HasStatus s.status s.items)
        (settle_loaded x a id_of fresh d now r)
settle_loaded-Returns x a id_of fresh d now r =
    Returns-any
      (when (not (is MaterialRequestStatus-discrete r.status Material.requested))
        (raise (rejected material_request_invalid_state)))
      λ _. Returns-any (validate_decisions r.items d.items) λ _.
        Returns-bind (decide_items-Settled x d.enforce_stock_check d.items r.items) λ l (hs, k).
          Returns-bind (conclude-Returns now r l) λ s (e, e₂).
            Returns-any (save_material now s) λ _.
              follow_up-Returns a id_of fresh d now s
                (rw e hs, rw e k, rw (e, e₂) (header_status-HasStatus l))

returned :
    {A : Type 0} (Q : A → Type 0) (x : Result ServiceError A × Database) {a : A} {left : Database}
    → Post (λ _. Unit {0}) (λ a _. Q a) x
    → x ≡ (ok a, left)
    → Q a
returned Q x h e = subst (λ y. Post (λ _. Unit {0}) (λ a _. Q a) y) e h

-- A decision on parts that is accepted returns and saves the request with the same items, each with
-- the decision that was sent last for it, the status of the decision and the quantity in stock. Where
-- the stock is checked, an item that is to come from stock is in the catalog, for SAP and for the
-- request, and the stock has as much of it as it asks for. The request is STOCK_ISSUED where all items
-- come from stock, PURCHASE_REQUIRED where all are purchased, and PARTIALLY_ISSUED otherwise.
pub decide_parts-Settled :
    (x : CentralStock) (a : Alphabet) (id_of : Uuid → Uuid) (fresh : Uuid) (d : PartsDecision)
    (now : DateTime) (db : Database) {o r : MaterialRequest} {left : Database}
    → find material_id d.material_request_id db.materials ≡ some o
    → decide_parts x a id_of fresh d now db ≡ (ok r, left)
    → All (Settled x d.enforce_stock_check d.items) r.items
      × (map undecided r.items ≡ map undecided o.items)
      × HasStatus r.status r.items
      × (left.materials ≡ put material_id (stored_material now) r db.materials)
decide_parts-Settled x a id_of fresh d now db {o} {r} {left} h e =
    let g = sym (loaded x a id_of fresh d now db h) ∙ e in
    let (s, k, t) =
      returned _ (settle_loaded x a id_of fresh d now o db)
        ((settle_loaded-Returns x a id_of fresh d now o).at db) g in
    (s, k, t, left_materials x a id_of fresh d now o db g)
