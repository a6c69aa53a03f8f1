-- ===== src/Workflow/Requested.antt =====
-- The steps of the decision on parts that leave the table of the requests for material as it is.
use fmms.Prelude.{
  refl, Bool, Option, none, some, List, [], ◌∷◌, Uuid, DateTime, Text, Decimal, Result, ok, err,
  get, Post, Update,
}
use fmms.Material.{
  MaterialRequest, MaterialRequestItem, MaterialItemDecision, from_stock, purchase, pending,
}
use fmms.Procurement.Values.{ValueError}
use fmms.Procurement.Requisition.{PurchaseRequisition}
use fmms.Repair.Event.{RepairOrderEventType}
use fmms.Workflow.Table.{Row}
use fmms.Workflow.Database.{
  Database, Call, ServiceError, required, held, on, load_order, record_event,
}
use fmms.Workflow.Frame.{Still, Still-pure, Still-raise, Still-if, Still-bind, Still-when}
use fmms.Workflow.Purchases.{
  Alphabet, LineData, load_requisition, save_requisition, create_requisition, checked,
  estimated_price, add_line,
}
use fmms.Workflow.Parts.{
  CentralStock, ItemDecision, validate_decisions, check_stock, decided, decide_item, decide_items,
  create_issue, issue_when, line_caught, add_lines, create_lines, record_status, conclude,
}

abbrev pub requests_of : Database → List (Row MaterialRequest)
requests_of db = db.materials

abbrev pub Quiet : {A : Type 0} → Call A → Type 0
Quiet m = Still requests_of m

pub Quiet-get : Quiet get
Quiet-get = record { at = λ db. refl }

pub Quiet-required : {A : Type 0} (e : ServiceError) (x : Option A) → Quiet (required e x)
Quiet-required e none = Still-raise e
Quiet-required e (some a) = Still-pure a

pub Quiet-held :
    {S E : Type 0} (wrap : E → ServiceError) (x : Result E (Unit {0}) × S) → Quiet (held wrap x)
Quiet-held wrap (ok _, s) = Still-pure s
Quiet-held wrap (err e, s) = Still-raise (wrap e)

pub Quiet-on :
    {S E : Type 0} (wrap : E → ServiceError) (m : Update S E) (s : S) → Quiet (on wrap m s)
Quiet-on wrap m s = Quiet-held wrap (m s)

pub Quiet-checked : {A : Type 0} (r : Result ValueError A) → Quiet (checked r)
Quiet-checked (ok a) = Still-pure a
Quiet-checked (err e) = Still-raise _

pub ruleset request_rules = (
  Still-pure, Still-raise, Still-if, Still-when, Still-bind, Quiet-get, Quiet-required, Quiet-on,
  Quiet-checked,
)

pub Quiet-load_requisition : (i : Uuid) → Quiet (load_requisition i)
unfolding load_requisition
Quiet-load_requisition i = search request_rules

pub Quiet-save_requisition :
    (now : DateTime) (r : PurchaseRequisition) → Quiet (save_requisition now r)
unfolding save_requisition
Quiet-save_requisition now r = record { at = λ db. refl }

pub Quiet-load_order : (i : Uuid) → Quiet (load_order i)
unfolding load_order
Quiet-load_order i = search request_rules

pub Quiet-price :
    (x : Alphabet) (a : Option Decimal) (c : Option Text) → Quiet (estimated_price x a c)
unfolding estimated_price
Quiet-price x none none = Still-pure none
Quiet-price x (some a) (some c) = search request_rules
Quiet-price x (some a) none = Still-raise _
Quiet-price x none (some c) = Still-raise _

pub Quiet-create :
    (fresh order user : Uuid) (material : Option Uuid) (now : DateTime)
    → Quiet (create_requisition fresh order user material now)
unfolding create_requisition
Quiet-create fresh order user material now =
    search (request_rules, Quiet-load_order, Quiet-save_requisition)

pub Quiet-add_line :
    (x : Alphabet) (i : Uuid) (d : LineData) (now : DateTime) → Quiet (add_line x i d now)
unfolding add_line
Quiet-add_line x i d now =
    search (request_rules, Quiet-load_requisition, Quiet-price, Quiet-save_requisition) depth 14
      fits 9000

pub line_caught-Post :
    {A : Type 0} (P : Database → Type 0) (x : Result ServiceError A × Database)
    → Post P (λ _. P) x
    → Post P (λ _. P) (line_caught x)
unfolding line_caught
line_caught-Post P (ok a, d) h = h
line_caught-Post P (err e, d) h = h

pub Quiet-add_lines :
    (x : Alphabet) (id_of : Uuid → Uuid) (pr : Uuid) (now : DateTime) (l : List MaterialRequestItem)
    → Quiet (add_lines x id_of pr now l)
unfolding add_lines
Quiet-add_lines x id_of pr now [] = Still-pure tt
Quiet-add_lines x id_of pr now (i ∷ l) =
    Still-bind
      (record {
        at = λ db. line_caught-Post _ (add_line x pr _ now db) ((Quiet-add_line x pr _ now).at db);
      })
      λ _. Quiet-add_lines x id_of pr now l

pub Quiet-create_lines :
    (x : Alphabet) (id_of : Uuid → Uuid) (fresh : Uuid) (r : MaterialRequest) (user : Uuid)
    (now : DateTime) (l : List MaterialRequestItem)
    → Quiet (create_lines x id_of fresh r user now l)
unfolding create_lines
Quiet-create_lines x id_of fresh r user now [] = Still-pure tt
Quiet-create_lines x id_of fresh r user now (i ∷ l) =
    Still-bind (Quiet-create _ _ _ _ _) λ _. Quiet-add_lines x id_of fresh now (i ∷ l)

pub Quiet-check_stock :
    (x : CentralStock) (b : Bool) (i : MaterialRequestItem) → Quiet (check_stock x b i)
unfolding check_stock
Quiet-check_stock x b i = search request_rules

pub Quiet-decided :
    (x : CentralStock) (b : Bool) (i : MaterialRequestItem) (d : MaterialItemDecision)
    → Quiet (decided x b i d)
unfolding decided
Quiet-decided x b i from_stock = search (request_rules, Quiet-check_stock)
Quiet-decided x b i purchase = Still-pure _
Quiet-decided x b i pending = Still-pure _

pub Quiet-decide_item :
    (x : CentralStock) (b : Bool) (i : MaterialRequestItem) (d : Option MaterialItemDecision)
    → Quiet (decide_item x b i d)
unfolding decide_item
Quiet-decide_item x b i none = Still-raise _
Quiet-decide_item x b i (some d) = Quiet-decided x b i d

pub Quiet-decide_items :
    (x : CentralStock) (b : Bool) (ds : List ItemDecision) (l : List MaterialRequestItem)
    → Quiet (decide_items x b ds l)
unfolding decide_items
Quiet-decide_items x b ds [] = Still-pure []
Quiet-decide_items x b ds (i ∷ l) =
    Still-bind (Quiet-decide_item x b i _)
      λ j. Still-bind (Quiet-decide_items x b ds l) λ rest. Still-pure _

pub Quiet-validate :
    (l : List MaterialRequestItem) (ds : List ItemDecision) → Quiet (validate_decisions l ds)
unfolding validate_decisions
Quiet-validate l ds = search request_rules

pub Quiet-conclude :
    (now : DateTime) (r : MaterialRequest) (l : List MaterialRequestItem) → Quiet (conclude now r l)
unfolding conclude
Quiet-conclude now r l = search request_rules

pub Quiet-issue_when : (l : List MaterialRequestItem) (i : Uuid) → Quiet (issue_when l i)
unfolding create_issue
Quiet-issue_when [] i = Still-pure tt
Quiet-issue_when (_ ∷ _) i = record { at = λ db. refl }

pub Quiet-record_event :
    (i : Uuid) (kind : RepairOrderEventType) (user : Option Uuid) (now : DateTime)
    → Quiet (record_event i kind user now)
unfolding record_event
Quiet-record_event i kind user now = record { at = λ db. refl }

pub Quiet-record_status :
    (r : MaterialRequest) (user : Uuid) (now : DateTime) → Quiet (record_status r user now)
unfolding record_status
Quiet-record_status r user now = Quiet-record_event _ _ _ now
