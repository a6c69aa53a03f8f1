-- ===== src/Inspection/Frozen.antt =====
-- What holds of an inspection whatever methods are called on it, raising or not.
use fmms.Prelude.{
  ◌≡◌, refl, Bool, true, false, Option, none, some, List, [], ◌∷◌, Uuid, Text, Update, arith,
}
use fmms.Inspection.{
  Inspection, InspectionItem, InspectionError, InspectionStatus, drafted, submitted, approved,
  rejected, add_item, submit, approve, reject, reopen,
}

-- A call of a method with its arguments, `transition_to` aside, which no service calls.
pub data Call : Type 0 where
  add : InspectionItem → Call
  submit_it reopen_it : Call
  approve_by reject_by : Uuid → Option Text → Call

unfoldable pub apply : Call → Update Inspection InspectionError
unfolding add_item submit approve reject reopen
apply (add i) = add_item i
apply submit_it = submit
apply reopen_it = reopen
apply (approve_by u n) = approve u n
apply (reject_by u n) = reject u n

-- The calls one after the other, those that raise too.
unfoldable pub run : List Call → Inspection → Inspection
run [] i = i
run (c ∷ cs) i = run cs (apply c i).1

-- What the status says of the reviewer and the items.
unfoldable pub is_consistent : InspectionStatus → Option Uuid → List InspectionItem → Bool
is_consistent drafted none _ = true
is_consistent submitted none (_ ∷ _) = true
is_consistent approved (some _) (_ ∷ _) = true
is_consistent rejected (some _) (_ ∷ _) = true
is_consistent _ _ _ = false

abbrev pub IsReviewed : Inspection → Type 0
IsReviewed i = is_consistent i.status i.reviewed_by_id i.items ≡ true

apply-IsReviewed : (c : Call) (i : Inspection) → IsReviewed i → IsReviewed (apply c i).1
unfolding apply is_consistent
apply-IsReviewed (add j) i h = ground arith
apply-IsReviewed submit_it i h = ground arith
apply-IsReviewed reopen_it i h = ground arith
apply-IsReviewed (approve_by u n) i h = ground arith
apply-IsReviewed (reject_by u n) i h = ground arith

-- Whatever methods are called on an inspection, `transition_to` aside, raising or not: where an
-- inspection that is not DRAFT has an item, one that is APPROVED or REJECTED has a reviewer and no
-- other has one, the same holds afterwards.
pub run-IsReviewed : (cs : List Call) (i : Inspection) → IsReviewed i → IsReviewed (run cs i)
unfolding run
run-IsReviewed [] i h = h
run-IsReviewed (c ∷ cs) i h = run-IsReviewed cs (apply c i).1 (apply-IsReviewed c i h)

apply_approved : (c : Call) (i : Inspection) → i.status ≡ approved → (apply c i).1 ≡ i
unfolding apply
apply_approved (add j) i h = ground arith
apply_approved submit_it i h = ground arith
apply_approved reopen_it i h = ground arith
apply_approved (approve_by u n) i h = ground arith
apply_approved (reject_by u n) i h = ground arith

-- No calls of the methods, `transition_to` aside, change an APPROVED inspection.
pub approved_final : (cs : List Call) (i : Inspection) → i.status ≡ approved → run cs i ≡ i
unfolding run
approved_final [] i h = refl
approved_final (c ∷ cs) i h = rw (apply_approved c i h) (approved_final cs i h)
