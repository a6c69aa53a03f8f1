-- ===== src/Workflow/OneOrder/Requests.antt =====
-- No sequence of requests gives a fault two orders that have not ended.
use fmms.Prelude.{List, [], ◌∷◌, Result, ok, err, Post, Bool-cases, inl, inr}
use fmms.Workflow.Database.{Database, Call, ServiceError, rejected, create_via_distribution_only}
use fmms.Workflow.Frame.{Holds-atomic}
use fmms.Workflow.Rules.{OneOrder, Keeps, Quiet-Keeps, Quiet-raise}
use fmms.Workflow.Distribution.{create_repair_order}
use fmms.Workflow.Requests.{Request, Outside, is_answered, concluded, respond, serve, serve_all}
use fmms.Workflow.OneOrder.Transport.{
  approve-Keeps, reject-Keeps, assign_workshop-Keeps, approve_handover-Keeps, reject_handover-Keeps,
}
use fmms.Workflow.OneOrder.Handovers.{confirm-Keeps}
use fmms.Workflow.OneOrder.Distribution.{close_fault-Keeps, mark_usable-Keeps, mark_unusable-Keeps}
use fmms.Workflow.OneOrder.Workshop.{start-Keeps, complete-Keeps, cancel-Keeps}
use fmms.Workflow.OneOrder.Decision.{
  sync-Keeps, decide-Keeps, assign_technician-Keeps, add_activity-Keeps, update_activity-Keeps,
  delete_activity-Keeps, add_part-Keeps, update_part-Keeps, delete_part-Keeps,
}
use fmms.Workflow.OneOrder.External.{
  assign_external-Keeps, confirm_delivery-Keeps, confirm_pickup-Keeps, cancel_external-Keeps,
}
use fmms.Workflow.OneOrder.Reports.{report-Keeps, assign_fault-Keeps}
use fmms.Workflow.OneOrder.Checklists.{
  create_inspection-Keeps, add_item-Keeps, submit-Keeps, report_checklist-Keeps,
}
use fmms.Workflow.OneOrder.Purchases.{
  create_requisition-Keeps, add_line-Keeps, submit_to_sap-Keeps, decide_parts-Keeps,
  issue_parts-Keeps, receive_order-Keeps,
}
use fmms.Workflow.OneOrder.Closing.{
  review-Keeps, close_external-Keeps, upload-Keeps, approve_invoice-Keeps, request-Keeps,
  receive-Keeps, register_cost-Keeps,
}

concluded-OneOrder :
    {A : Type 0} (db : Database)
    → OneOrder db.orders
    → (x : Result ServiceError A × Database)
    → Post (λ (d : Database). OneOrder d.orders) (λ _ (d : Database). OneOrder d.orders) x
    → OneOrder (concluded db x).orders
unfolding concluded
concluded-OneOrder db one (ok a, d) h = h
concluded-OneOrder db one (err e, d) h = elim (Bool-cases (is_answered e)) [
  | inl b ↦ rw b h
  | inr b ↦ rw b one
]

respond-OneOrder :
    {A : Type 0} (m : Call A) (db : Database)
    → Keeps OneOrder m
    → OneOrder db.orders
    → OneOrder (respond m db).orders
respond-OneOrder m db q one = concluded-OneOrder db one (m db) (q.at db one one)

create-Keeps : Keeps OneOrder create_repair_order
unfolding create_repair_order
create-Keeps = Quiet-Keeps (Quiet-raise (rejected create_via_distribution_only))

serve-OneOrder :
    (x : Outside) (r : Request) (db : Database)
    → OneOrder db.orders
    → OneOrder (serve x r db).orders
unfolding serve
serve-OneOrder x (Request.approve i n u t) db = respond-OneOrder _ db (approve-Keeps i n u t)
serve-OneOrder x (Request.reject i r u t) db = respond-OneOrder _ db (reject-Keeps i r u t)
serve-OneOrder x (Request.assign f i k w r u t) db =
    respond-OneOrder _ db (assign_workshop-Keeps f i k w r u t)
serve-OneOrder x (Request.approve_return i u t) db =
    respond-OneOrder _ db (Holds-atomic (approve_handover-Keeps i u t))
serve-OneOrder x (Request.reject_return f i u t) db =
    respond-OneOrder _ db (Holds-atomic (reject_handover-Keeps f i u t))
serve-OneOrder x (Request.confirm f i b c u t) db =
    respond-OneOrder _ db (confirm-Keeps f i b c u t)
serve-OneOrder x (Request.close i u t) db = respond-OneOrder _ db (close_fault-Keeps i u t)
serve-OneOrder x (Request.usable i n u t) db = respond-OneOrder _ db (mark_usable-Keeps i n u t)
serve-OneOrder x (Request.unusable f i n u t) db =
    respond-OneOrder _ db (mark_unusable-Keeps x.replace f i n u t)
serve-OneOrder x Request.create db = respond-OneOrder _ db create-Keeps
serve-OneOrder x (Request.start i u t) db = respond-OneOrder _ db (Holds-atomic (start-Keeps i u t))
serve-OneOrder x (Request.complete f i d b u t) db =
    respond-OneOrder _ db (Holds-atomic (complete-Keeps f i d b u t))
serve-OneOrder x (Request.cancel i u t) db = respond-OneOrder _ db (cancel-Keeps i u t)
serve-OneOrder x (Request.sync i t) db = respond-OneOrder _ db (sync-Keeps x.sap i t)
serve-OneOrder x (Request.decide f i b n u t) db =
    respond-OneOrder _ db (decide-Keeps x.sap x.no_repair_note f i b n u t)
serve-OneOrder x (Request.technician i p t) db =
    respond-OneOrder _ db (assign_technician-Keeps i p t)
serve-OneOrder x (Request.new_activity f i d h p a n t) db =
    respond-OneOrder _ db (add_activity-Keeps f i d h p a n t)
serve-OneOrder x (Request.edit_activity i a d h n t) db =
    respond-OneOrder _ db (update_activity-Keeps i a d h n t)
serve-OneOrder x (Request.drop_activity i a t) db =
    respond-OneOrder _ db (delete_activity-Keeps i a t)
serve-OneOrder x (Request.new_part f i m q e t) db =
    respond-OneOrder _ db (add_part-Keeps f i m q e t)
serve-OneOrder x (Request.edit_part i p m q e t) db =
    respond-OneOrder _ db (update_part-Keeps i p m q e t)
serve-OneOrder x (Request.drop_part i p t) db = respond-OneOrder _ db (delete_part-Keeps i p t)
serve-OneOrder x (Request.cost f i d u t) db = respond-OneOrder _ db (register_cost-Keeps f i d u t)
serve-OneOrder x (Request.external f i d u t) db =
    respond-OneOrder _ db (assign_external-Keeps x.change_note f i d u t)
serve-OneOrder x (Request.delivery f i d u t) db =
    respond-OneOrder _ db (confirm_delivery-Keeps f i d u t)
serve-OneOrder x (Request.pickup f i d u t) db =
    respond-OneOrder _ db (confirm_pickup-Keeps f i d u t)
serve-OneOrder x (Request.review f i d u t) db = respond-OneOrder _ db (review-Keeps f i d u t)
serve-OneOrder x (Request.finish f i u t) db =
    respond-OneOrder _ db (close_external-Keeps x.reader f i u t)
serve-OneOrder x (Request.withdraw i r n u t) db =
    respond-OneOrder _ db (cancel_external-Keeps i r n u t)
serve-OneOrder x (Request.upload f i d u t) db = respond-OneOrder _ db (upload-Keeps f i d u t)
serve-OneOrder x (Request.accept_invoice i u t) db =
    respond-OneOrder _ db (approve_invoice-Keeps i u t)
serve-OneOrder x (Request.materials f i l u t) db = respond-OneOrder _ db (request-Keeps f i l u t)
serve-OneOrder x (Request.receive i u t) db = respond-OneOrder _ db (receive-Keeps i u t)
serve-OneOrder x (Request.report f d u t) db =
    respond-OneOrder _ db (report-Keeps x.notifier x.characters f d u t)
serve-OneOrder x (Request.repairer i u t) db = respond-OneOrder _ db (assign_fault-Keeps i u t)
serve-OneOrder x (Request.inspect f d t) db = respond-OneOrder _ db (create_inspection-Keeps f d t)
serve-OneOrder x (Request.check i a t) db = respond-OneOrder _ db (add_item-Keeps i a t)
serve-OneOrder x (Request.hand_in i t) db = respond-OneOrder _ db (submit-Keeps i t)
serve-OneOrder x (Request.report_checklist f i u t) db =
    respond-OneOrder _ db (report_checklist-Keeps x.fresh_of x.notifier x.characters f i u t)
serve-OneOrder x (Request.availability f d t) db =
    respond-OneOrder _ db (decide_parts-Keeps x.stock x.alphabet x.fresh_of f d t)
serve-OneOrder x (Request.issue i u t) db = respond-OneOrder _ db (issue_parts-Keeps i u t)
serve-OneOrder x (Request.requisition f o u m t) db =
    respond-OneOrder _ db (create_requisition-Keeps f o u m t)
serve-OneOrder x (Request.line i d t) db = respond-OneOrder _ db (add_line-Keeps x.alphabet i d t)
serve-OneOrder x (Request.send_requisition i t) db =
    respond-OneOrder _ db (submit_to_sap-Keeps x.purchasing i t)
serve-OneOrder x (Request.receive_order f d t) db =
    respond-OneOrder _ db (receive_order-Keeps x.alphabet f d t)

-- Where each fault has one repair order at most that has not ended, deleted rows aside, no sequence
-- of requests of any users changes that, whether a request returns or raises, whatever SAP answers
-- and whichever ids are made.
pub serve_all-OneOrder :
    (x : Outside) (l : List Request) (db : Database)
    → OneOrder db.orders
    → OneOrder (serve_all x l db).orders
unfolding serve_all
serve_all-OneOrder x [] db one = one
serve_all-OneOrder x (r ∷ l) db one =
    serve_all-OneOrder x l (serve x r db) (serve-OneOrder x r db one)
