-- ===== src/Inspection/Examples.antt =====
-- A checklist that is filled, sent back and approved: the theorems at a concrete inspection.
use fmms.Prelude.{◌≡◌, refl, none, some, List, [], ◌∷◌}
use fmms.Inspection
use fmms.Inspection.{Inspection, InspectionItem}
use fmms.Inspection.Frozen.{Call, IsReviewed, is_consistent, run, run-IsReviewed, approved_final}

abbrev pub lamp : InspectionItem
lamp = record {
  id = 11;
  category = 76 ∷ [];
  description = 76 ∷ [];
  result = Inspection.failed;
  notes = none;
  severity = some Inspection.low;
}

abbrev checklist : Inspection
checklist = record {
  id = 10;
  vehicle_id = 2;
  inspection_type = Inspection.pre_trip;
  odometer_reading = record { value = 9000; unit = Inspection.km };
  status = Inspection.drafted;
  inspected_at = 100;
  created_at = 100;
  updated_at = 100;
  driver_id = none;
  reviewed_by_id = none;
  review_notes = none;
  items = [];
}

abbrev calls : List Call
calls =
    Call.submit_it
    ∷ Call.add lamp
    ∷ Call.submit_it
    ∷ Call.reject_by 4 none
    ∷ Call.reopen_it
    ∷ Call.submit_it
    ∷ Call.approve_by 5 none
    ∷ Call.reopen_it
    ∷ []

checklist-IsReviewed : IsReviewed checklist
unfolding is_consistent
checklist-IsReviewed = refl

abbrev pub approved_checklist : Inspection
approved_checklist = record checklist {
  status = Inspection.approved;
  reviewed_by_id = some 5;
  items = lamp ∷ [];
}

run-IsReviewed_example : IsReviewed (run calls checklist)
run-IsReviewed_example = run-IsReviewed calls checklist checklist-IsReviewed

approved_final_example : run calls approved_checklist ≡ approved_checklist
approved_final_example = approved_final calls approved_checklist refl
