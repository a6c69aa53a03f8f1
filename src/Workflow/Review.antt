-- ===== src/Workflow/Review.antt =====
-- The review of an external repair and its closing
-- (apps/repair/application/services/external_workshop_service.py).
use Prim.Native.Nat.{ℕ, zero, suc}
use fmms.Prelude.{
  Bool, true, false, not, ◌&&◌, ◌||◌, Option, none, some, List, [], ◌∷◌, ◌++◌, Uuid, DateTime, Text,
  Text-discrete, Decimal, ℤ, pos, negsuc, ltb, strip, text_truthy, member, is_some, length, ◌>>=◌,
  ◌>>◌, pure, raise, when, if◌then◌else◌,
}
use fmms.Prelude.Json.{Payload}
use fmms.Repair.Status.{waiting_external_admin_review}
use fmms.Repair.Order
use fmms.Repair.Order.{RepairOrder, RepairPart, PartQuantity, status_is}
use fmms.Repair.Values.{part_quantity}
use fmms.Repair.Event.{external_admin_review_saved, external_repair_closed}
use fmms.Repair.External
use fmms.Repair.External.{
  ExternalWorkshopAssignment, ExternalRepairReview, draft, ensure_active, mark_completed,
}
use fmms.Workflow.Database.{
  Call, atomic, rejected, review_requires_pickup, review_invalid_repair_state,
  review_fields_missing, close_invalid_repair_state, assignment_error, built, on, load_order,
  save_assignment, save_review, record_event,
}
use fmms.Workflow.Steps.{change_order, close_fault_for_completed_repair, record_component_history}
use fmms.Workflow.External.{load_assignment, pickup_of, review_of}

-- `ReviewExternalRepairDTO`, but for the assignment, the user and the request.
pub record ReviewData : Type 0 where
  pub invoice_attachment : Option Text
  pub repair_services : List Payload
  pub replaced_parts : List Payload
  pub repair_cost : Option Decimal
  pub additional_notes : Text

-- `(dto.invoice_attachment or "").strip()`
abbrev pub attachment_text : Option Text → Text
attachment_text none = []
attachment_text (some t) = strip t

-- `x or y`, for a text and the text before.
abbrev pub text_or : Text → Option Text → Option Text
text_or [] old = old
text_or (c ∷ t) old = some (c ∷ t)

-- The review that replaces another, whose fields the form does not have stay.
unfoldable pub new_review :
    Uuid
    → ExternalWorkshopAssignment
    → RepairOrder
    → ReviewData
    → Uuid
    → DateTime
    → Option ExternalRepairReview
    → ExternalRepairReview
new_review fresh a o d user now none = record {
  id = fresh;
  assignment_id = a.id;
  repair_order_id = o.id;
  invoice_attachment = text_or (attachment_text d.invoice_attachment) none;
  repair_services = d.repair_services;
  replaced_parts = d.replaced_parts;
  repair_cost = d.repair_cost;
  additional_notes = strip d.additional_notes;
  sap_purchase_order_number = none;
  sap_invoice_document_number = none;
  status = draft;
  reviewed_by_id = user;
  created_at = now;
  updated_at = now;
}
new_review fresh a o d user now (some r) = record {
  id = r.id;
  assignment_id = a.id;
  repair_order_id = o.id;
  invoice_attachment = text_or (attachment_text d.invoice_attachment) r.invoice_attachment;
  repair_services = d.repair_services;
  replaced_parts = d.replaced_parts;
  repair_cost = d.repair_cost;
  additional_notes = strip d.additional_notes;
  sap_purchase_order_number = r.sap_purchase_order_number;
  sap_invoice_document_number = r.sap_invoice_document_number;
  status = draft;
  reviewed_by_id = user;
  created_at = r.created_at;
  updated_at = now;
}

-- `ReviewExternalRepairService.execute`
unfoldable pub review_repair :
    Uuid → Uuid → ReviewData → Uuid → DateTime → Call ExternalWorkshopAssignment
unfolding new_review
review_repair fresh i d user now = atomic (do
  a ← load_assignment i
  on assignment_error ensure_active a
  taken ← pickup_of a.id
  when (not (is_some taken)) (raise (rejected review_requires_pickup))
  o ← load_order a.repair_order_id
  when (not (status_is waiting_external_admin_review o))
      (raise (rejected review_invalid_repair_state))
  existing ← review_of a.id
  save_review now (new_review fresh a o d user now existing)
  record_event o.id external_admin_review_saved (some user) now
  pure a)

-- `Decimal(str(cost)) > 0`
unfoldable pub is_cost : Option Decimal → Bool
is_cost none = false
is_cost (some d) = not d.negative && ltb 0 d.digits

abbrev pub has_services : List Payload → Bool
has_services [] = false
has_services (_ ∷ _) = true

-- `_assert_review_complete`, with the review that it finds complete.
unfoldable pub complete_review : Option ExternalRepairReview → Call ExternalRepairReview
unfolding is_cost
complete_review none = raise (rejected review_fields_missing)
complete_review (some r) =
    if has_services r.repair_services && is_cost r.repair_cost
    then pure r
    else raise (rejected review_fields_missing)

-- `max(quantity, 1)`
abbrev pub at_least_one : ℤ → ℤ
at_least_one (pos zero) = pos 1
at_least_one (pos (suc n)) = pos (suc n)
at_least_one (negsuc n) = pos 1

unfoldable pub materials_of : List RepairPart → List Text
materials_of [] = []
materials_of (p ∷ l) = p.part_quantity.material_number ∷ materials_of l

-- What Python's `str` and `int` make of the fields of an item that was read from JSON: its material
-- or its name, its quantity, and its unit.
pub record ItemReader : Type 0 where
  pub material : Payload → Text
  pub quantity : Payload → ℤ
  pub unit : Payload → Text

unfoldable pub merged_part : Uuid → DateTime → PartQuantity → RepairPart
merged_part fresh now q = record {
  id = fresh;
  part_quantity = q;
  goods_issue_id = none;
  posted_at = some now;
}

abbrev pub is_skipped : Text → List Text → Bool
is_skipped t known = not (text_truthy t) || member Text-discrete t known

-- The loop of `_merge_review_parts_into_order`; `fresh n` is the id that the item with n items after
-- it gets.
unfoldable pub merge_parts :
    ItemReader → (ℕ → Uuid) → DateTime → List Text → List Payload → Call (List RepairPart)
unfolding merged_part
merge_parts reader fresh now known [] = pure []
merge_parts reader fresh now known (item ∷ l) =
    let t = strip (reader.material item) in
    let rest = merge_parts reader fresh now known l in
    let more = merge_parts reader fresh now (t ∷ known) l in
    if is_skipped t known then rest else (do
      q ← built (part_quantity t (at_least_one (reader.quantity item)) (reader.unit item))
      parts ← more
      pure (merged_part (fresh (length l)) now q ∷ parts))

-- What is saved of the review and of the assignment.
unfoldable pub finish_review :
    ExternalWorkshopAssignment → ExternalRepairReview → DateTime → Call ExternalWorkshopAssignment
finish_review a r now = do
  save_review now (record (mark_completed r) { updated_at = now })
  b ← on assignment_error (External.complete now) a
  save_assignment now b
  pure b

-- `CloseExternalRepairService.execute`
unfoldable pub close_external_repair :
    ItemReader → (ℕ → Uuid) → Uuid → Uuid → DateTime → Call ExternalWorkshopAssignment
unfolding complete_review merge_parts finish_review materials_of
close_external_repair reader fresh i user now = atomic (do
  a ← load_assignment i
  on assignment_error ensure_active a
  found ← review_of a.id
  r ← complete_review found
  o ← load_order a.repair_order_id
  when (not (status_is waiting_external_admin_review o))
      (raise (rejected close_invalid_repair_state))
  parts ← merge_parts reader fresh now (materials_of o.parts) r.replaced_parts
  p ← change_order (Order.close_external_repair now) now (record o { parts = o.parts ++ parts })
  b ← finish_review a r now
  record_component_history p user now
  close_fault_for_completed_repair now p.fault_id
  record_event p.id external_repair_closed (some user) now
  pure b)
