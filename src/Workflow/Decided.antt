-- ===== src/Workflow/Decided.antt =====
-- What the decision on the availability of parts leaves in the table of the requests for material
-- (apps/material/application/services/parts_availability_decision_service.py).
use fmms.Prelude.{
  ◌≡◌, ◌∙◌, sym, ap, refl, not, some, Uuid, DateTime, ok, when, raise, ◌>>=◌, ◌>>◌, pure, is, Post,
  Post-bind, Post-both,
}
use std.Path.{subst}
use fmms.Material
use fmms.Material.{
  MaterialRequest, MaterialRequestItem, MaterialRequestStatus-discrete, MaterialItemDecision,
  from_stock, purchase, pending,
}
use fmms.Repair.Event.{material_approved}
use fmms.Workflow.Table.{find, put}
use fmms.Workflow.Stored.{stored_material}
use fmms.Workflow.Database.{
  Database, Call, material_id, save_material, record_event, rejected,
  material_request_invalid_state,
}
use fmms.Workflow.Frame.{Still-raise, Still-when}
use fmms.Workflow.Materials.{load_material}
use fmms.Workflow.Purchases.{Alphabet}
use fmms.Workflow.Parts.{
  CentralStock, PartsDecision, validate_decisions, decide_items, issue_when, create_lines,
  record_status, conclude, decide_parts, items_with,
}
use fmms.Workflow.Requested.{
  Quiet, Quiet-create_lines, Quiet-decide_items, Quiet-validate, Quiet-conclude, Quiet-issue_when,
  Quiet-record_event, Quiet-record_status,
}

-- What follows the save of the request.
abbrev pub follow_up :
    Alphabet
    → (Uuid → Uuid)
    → Uuid
    → PartsDecision
    → DateTime
    → MaterialRequest
    → Call MaterialRequest
follow_up a id_of fresh d now s = do
  issue_when (items_with from_stock s.items) s.id
  create_lines a id_of fresh s d.decided_by now (items_with purchase s.items)
  record_event s.repair_order_id material_approved (some d.decided_by) now
  record_status s d.decided_by now
  pure s

-- The service, once the request is loaded.
abbrev pub settle_loaded :
    CentralStock
    → Alphabet
    → (Uuid → Uuid)
    → Uuid
    → PartsDecision
    → DateTime
    → MaterialRequest
    → Call MaterialRequest
settle_loaded x a id_of fresh d now r = do
  when (not (is MaterialRequestStatus-discrete r.status Material.requested))
      (raise (rejected material_request_invalid_state))
  validate_decisions r.items d.items
  l ← decide_items x d.enforce_stock_check d.items r.items
  s ← conclude now r l
  save_material now s
  follow_up a id_of fresh d now s

-- Where the call returns a request, it has saved it, and no other one.
record Leaves (now : DateTime) (m : Call MaterialRequest) : Type 0 where
  at :
      (db : Database)
      → Post
          (λ _. Unit {0})
          (λ s d. d.materials ≡ put material_id (stored_material now) s db.materials)
          (m db)

Leaves-then :
    {A : Type 0} {now : DateTime} {m : Call A} {k : A → Call MaterialRequest}
    → Quiet m
    → ((a : A) → Leaves now (k a))
    → Leaves now (m >>= k)
Leaves-then {now = now} {m = m} {k = k} q f = record {
  at = λ db.
      Post-bind _ _ _ k
        (λ a s e.
          Post-both _ _ _ _ (k a s) (λ d u. tt)
            (λ r d u. u ∙ ap (put material_id (stored_material now) r) e) ((f a).at s))
        (m db) (Post-both _ _ _ _ (m db) (λ d e. tt) (λ a d e. e) (q.at db));
}

-- Where the call returns, it returns the request and leaves the table as it is.
record Back (s : MaterialRequest) (m : Call MaterialRequest) : Type 0 where
  at : (db : Database) → Post (λ _. Unit {0}) (λ r d. (r ≡ s) × (d.materials ≡ db.materials)) (m db)

Back-then :
    {A : Type 0} {s : MaterialRequest} {m : Call A} {k : A → Call MaterialRequest}
    → Quiet m
    → ((a : A) → Back s (k a))
    → Back s (m >>= k)
Back-then {s = s} {m = m} {k = k} q f = record {
  at = λ db.
      Post-bind _ _ _ k
        (λ a t e. Post-both _ _ _ _ (k a t) (λ d u. tt) (λ r d (u, v). (u, v ∙ e)) ((f a).at t))
        (m db) (Post-both _ _ _ _ (m db) (λ d e. tt) (λ a d e. e) (q.at db));
}

save-Leaves :
    (now : DateTime) (s : MaterialRequest) {m : Call MaterialRequest}
    → Back s m
    → Leaves now (save_material now s >> m)
unfolding save_material
save-Leaves now s {m} q = record {
  at = λ db.
      Post-both _ _ _ _ (m (save_material now s db).1) (λ d e. tt)
        (λ r d (u, v). v ∙ ap (λ t. put material_id (stored_material now) t db.materials) (sym u))
        (q.at (save_material now s db).1);
}

module _ (x : CentralStock) (a : Alphabet) (id_of : Uuid → Uuid) (fresh : Uuid) (d : PartsDecision)
    (now : DateTime) where
  follow_up-Back : (s : MaterialRequest) → Back s (follow_up a id_of fresh d now s)
  follow_up-Back s = Back-then (Quiet-issue_when (items_with from_stock s.items) s.id) λ _.
      Back-then (Quiet-create_lines a id_of fresh s d.decided_by now (items_with purchase s.items))
        λ _.
          Back-then (Quiet-record_event s.repair_order_id material_approved (some d.decided_by) now)
            λ _.
              Back-then (Quiet-record_status s d.decided_by now)
                λ _. record { at = λ db. (refl, refl) }

  settle_loaded-Leaves : (r : MaterialRequest) → Leaves now (settle_loaded x a id_of fresh d now r)
  settle_loaded-Leaves r =
      Leaves-then
        (Still-when (not (is MaterialRequestStatus-discrete r.status Material.requested))
          (raise (rejected material_request_invalid_state))
          (Still-raise (rejected material_request_invalid_state)))
        λ _. Leaves-then (Quiet-validate r.items d.items) λ _.
          Leaves-then (Quiet-decide_items x d.enforce_stock_check d.items r.items)
            λ l. Leaves-then (Quiet-conclude now r l) λ s. save-Leaves now s (follow_up-Back s)

  pub left_materials :
      (o : MaterialRequest) (db : Database) {r : MaterialRequest} {left : Database}
      → settle_loaded x a id_of fresh d now o db ≡ (ok r, left)
      → left.materials ≡ put material_id (stored_material now) r db.materials
  left_materials o db e =
      subst
        (λ y.
          Post (λ _. Unit {0})
            (λ s d. d.materials ≡ put material_id (stored_material now) s db.materials) y)
        e ((settle_loaded-Leaves o).at db)

  pub loaded :
      (db : Database) {o : MaterialRequest}
      → find material_id d.material_request_id db.materials ≡ some o
      → decide_parts x a id_of fresh d now db ≡ settle_loaded x a id_of fresh d now o db
  unfolding decide_parts load_material
  loaded db {o} h = rw h refl
