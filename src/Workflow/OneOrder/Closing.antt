-- ===== src/Workflow/OneOrder/Closing.antt =====
-- The review and the closing of an external repair, the invoices and the requests of parts keep the
-- rule of one order for each fault.
use fmms.Prelude.{ℕ, strip, Option, none, some, List, [], ◌∷◌, Uuid, DateTime, Text, refl}
use fmms.Prelude.Json.{Payload}
use fmms.Repair.Order
use fmms.Repair.Order.{RepairOrder, RepairPart}
use fmms.Repair.Lifecycle.{Call as Action, apply}
use fmms.Repair.Costs.{ExternalRepairInvoice}
use fmms.Repair.External.{ExternalWorkshopAssignment, ExternalRepairReview}
use fmms.Material.{MaterialRequest}
use fmms.Workflow.Database.{Code, save_invoice, save_material, save_cost}
use fmms.Repair.Costs.{InternalRepairCost}
use fmms.Workflow.Rules.{
  OneOrder, Quiet, Keeps, Loaded, Quiet-Keeps, Quiet-then, Quiet-bind, Quiet-pure, Quiet-if,
  Keeps-load, Keeps-atomic, keeps_rules,
}
use fmms.Workflow.Advance.{Advances}
use fmms.Workflow.Quiet.{quiet_rules, shared_rules, Quiet-built}
use fmms.Workflow.Change.{
  Keeps-change, Keeps-change_parts, apply-Advances, Loaded-Keeps, Loaded-when,
}
use fmms.Workflow.Review.{
  ReviewData, ItemReader, review_repair, complete_review, merge_parts, finish_review,
  close_external_repair,
}
use fmms.Workflow.Invoices.{
  InvoiceData, assert_invoice_allowed, upload_invoice, load_invoice, approve_invoice,
}
use fmms.Workflow.Materials.{
  ItemData, request_materials, load_material, resume_repair, receive_materials,
}
use fmms.Workflow.Editing.{CostData, cost_of_order, register_cost}
use fmms.Workflow.OneOrder.External.{
  Quiet-load_assignment, Quiet-pickup_of, Quiet-review_of, Quiet-save_review,
}

pub review-Keeps :
    (fresh i : Uuid) (d : ReviewData) (user : Uuid) (now : DateTime)
    → Keeps OneOrder (review_repair fresh i d user now)
unfolding review_repair
review-Keeps fresh i d user now = Keeps-atomic (
    Quiet-then (Quiet-load_assignment i) λ a.
      search
        (
          quiet_rules, keeps_rules, Loaded-Keeps, Quiet-pickup_of, Quiet-review_of,
          Quiet-save_review,
        )
        depth 14 fits 9000)

Quiet-complete_review : (r : Option ExternalRepairReview) → Quiet (complete_review r)
unfolding complete_review
Quiet-complete_review none = search quiet_rules
Quiet-complete_review (some r) = search quiet_rules

Quiet-merge_parts :
    (reader : ItemReader) (fresh : ℕ → Uuid) (now : DateTime) (known : List Text) (l : List Payload)
    → Quiet (merge_parts reader fresh now known l)
unfolding merge_parts
Quiet-merge_parts reader fresh now known [] = Quiet-pure []
Quiet-merge_parts reader fresh now known (x ∷ l) =
    Quiet-if _ _ _ (Quiet-merge_parts reader fresh now known l) (
      Quiet-bind (Quiet-built _) λ q.
        Quiet-bind (Quiet-merge_parts reader fresh now (strip (reader.material x) ∷ known) l)
          λ parts. Quiet-pure _)

Quiet-finish_review :
    (a : ExternalWorkshopAssignment) (r : ExternalRepairReview) (now : DateTime)
    → Quiet (finish_review a r now)
unfolding finish_review
Quiet-finish_review a r now = search (quiet_rules, Quiet-save_review)

closing-Advances : (now : DateTime) → Advances (Order.close_external_repair now)
unfolding apply
closing-Advances now = apply-Advances (Action.close_external_repair now)

pub close_external-Keeps :
    (reader : ItemReader) (fresh : ℕ → Uuid) (i user : Uuid) (now : DateTime)
    → Keeps OneOrder (close_external_repair reader fresh i user now)
unfolding close_external_repair
close_external-Keeps reader fresh i user now = Keeps-atomic (
    Quiet-then (Quiet-load_assignment i) λ a.
      search
        (
          keeps_rules, shared_rules, Quiet-review_of, Quiet-complete_review, Quiet-merge_parts,
          Quiet-finish_review, Keeps-change_parts, closing-Advances,
        )
        depth 16 fits 9000)

Quiet-assert_allowed : (c d : Code) (o : RepairOrder) → Quiet (assert_invoice_allowed c d o)
unfolding assert_invoice_allowed
Quiet-assert_allowed c d o = search quiet_rules

Quiet-save_invoice : (now : DateTime) (x : ExternalRepairInvoice) → Quiet (save_invoice now x)
unfolding save_invoice
Quiet-save_invoice now x = record { at = λ db. refl }

pub upload-Keeps :
    (fresh i : Uuid) (d : InvoiceData) (user : Uuid) (now : DateTime)
    → Keeps OneOrder (upload_invoice fresh i d user now)
unfolding upload_invoice
upload-Keeps fresh i d user now = Keeps-load i λ o.
    Loaded-Keeps o (Quiet-Keeps (search (quiet_rules, Quiet-assert_allowed, Quiet-save_invoice)))

Quiet-load_invoice : (i : Uuid) → Quiet (load_invoice i)
unfolding load_invoice
Quiet-load_invoice i = search quiet_rules

complete-Advances : (at : DateTime) → Advances (Order.complete_after_transport_handover at)
unfolding apply
complete-Advances at = apply-Advances (Action.complete_after_transport_handover at)

pub approve_invoice-Keeps :
    (i user : Uuid) (now : DateTime) → Keeps OneOrder (approve_invoice i user now)
unfolding approve_invoice
approve_invoice-Keeps i user now = Quiet-then (Quiet-load_invoice i) λ v.
    search
      (
        keeps_rules, shared_rules, Quiet-assert_allowed, Quiet-save_invoice, Keeps-change,
        complete-Advances,
      )
      depth 14 fits 9000

pub Quiet-save_material : (now : DateTime) (r : MaterialRequest) → Quiet (save_material now r)
unfolding save_material
Quiet-save_material now r = record { at = λ db. refl }

waiting-Advances : Advances Order.wait_for_parts
unfolding apply
waiting-Advances = apply-Advances Action.wait_for_parts

resume-Advances : Advances Order.resume_after_parts
unfolding apply
resume-Advances = apply-Advances Action.resume_after_parts

pub request-Keeps :
    (fresh i : Uuid) (l : List ItemData) (user : Uuid) (now : DateTime)
    → Keeps OneOrder (request_materials fresh i l user now)
unfolding request_materials
request-Keeps fresh i l user now =
    search (keeps_rules, quiet_rules, Quiet-save_material, Keeps-change, waiting-Advances) depth 14
      fits 9000

pub Quiet-load_material : (i : Uuid) → Quiet (load_material i)
unfolding load_material
Quiet-load_material i = search quiet_rules

resume-Keeps : (o : RepairOrder) (now : DateTime) → Keeps (Loaded o) (resume_repair o now)
unfolding resume_repair
resume-Keeps o now =
    Loaded-when o _ _ (Keeps-change now o resume-Advances λ _. Quiet-Keeps (Quiet-pure tt))

pub receive-Keeps : (i user : Uuid) (now : DateTime) → Keeps OneOrder (receive_materials i user now)
unfolding receive_materials
receive-Keeps i user now =
    Quiet-then (Quiet-load_material i)
      λ r. search (keeps_rules, quiet_rules, Quiet-save_material, resume-Keeps) depth 14 fits 9000

Quiet-save_cost : (now : DateTime) (c : InternalRepairCost) → Quiet (save_cost now c)
unfolding save_cost
Quiet-save_cost now c = record { at = λ db. refl }

Quiet-cost_of_order : (i : Uuid) → Quiet (cost_of_order i)
unfolding cost_of_order
Quiet-cost_of_order i = search quiet_rules

pub register_cost-Keeps :
    (fresh i : Uuid) (d : CostData) (user : Uuid) (now : DateTime)
    → Keeps OneOrder (register_cost fresh i d user now)
unfolding register_cost
register_cost-Keeps fresh i d user now = Keeps-load i λ o.
    Loaded-Keeps o
      (Quiet-Keeps (search (quiet_rules, Quiet-save_cost, Quiet-cost_of_order) depth 10))
