-- ===== src/Fault/Examples.antt =====
-- Faults whose methods are called: the theorems at concrete faults.
use fmms.Prelude.{
  ℕ, ◌≤◌, ◌-◌, ◌≡◌, ◌≢◌, ◌↔◌, refl, true, ◌&&◌, none, List, [], ◌∷◌, ok, Text, codes, leb, length,
  if◌then◌else◌, arith,
}
use fmms.Fault.Values.{is_code_char, all_code_chars, fault_code}
use fmms.Fault.Report.{ItemData, ReportData, Characters, resolve_fault_payload}
use fmms.Fault.Payload.{Bounds, report_code_accepted, report_bounds}
use fmms.Fault.Status.{FaultStatus, opened, assigned, closed, high, low}
use fmms.Fault.Entity.{Fault, close_open_fault}
use fmms.Fault.Lifecycle.{Call, SameFault, run, closed_final, close_open_fault_lem}

abbrev pub fault : FaultStatus → Fault
fault s = record {
  id = 1;
  vehicle_id = 2;
  code = 70 ∷ [];
  description = 66 ∷ [];
  severity = high;
  status = s;
  reported_by_id = 3;
  reported_at = 10;
  created_at = 10;
  updated_at = 10;
  inspection_id = none;
  sap_defect_code = none;
  sap_notification_number = none;
  assigned_to_id = none;
  distribution_decision_note = none;
  items = [];
}

abbrev attempts : List Call
attempts =
    Call.transition_to opened
    ∷ Call.link_sap_notification (49 ∷ [])
    ∷ Call.assign 5
    ∷ Call.close
    ∷ []

closed_final_example : SameFault (fault closed) (run attempts (fault closed))
closed_final_example = closed_final attempts (fault closed) refl

assigned_not_closed : assigned ≢ closed
assigned_not_closed e = cc

close_open_fault_lem_example :
    close_open_fault (fault assigned) ≡ (ok tt, record (fault assigned) { status = closed })
close_open_fault_lem_example = close_open_fault_lem (fault assigned) assigned_not_closed

abbrev pub leak : ItemData
leak = record {
  item_id = 20;
  code = codes "oil leak";
  component = codes "engine";
  description = [];
  severity = low;
}

abbrev pub brakes : ItemData
brakes = record {
  item_id = 21;
  code = codes "brk";
  component = [];
  description = codes "brakes";
  severity = high;
}

abbrev pub report : List ItemData → ReportData
report l = record {
  vehicle_id = 2;
  code = codes "fl-01";
  description = [];
  severity = low;
  inspection_id = none;
  items = l;
}

-- The capitals of ASCII.
abbrev pub capital : ℕ → ℕ
capital c = if leb 97 c && leb c 122 then c - 32 else c

unfoldable pub upper : Text → Text
upper [] = []
upper (c ∷ t) = capital c ∷ upper t

pub upper_code : (t : Text) → all_code_chars t ≡ true → upper t ≡ t
unfolding upper all_code_chars
upper_code [] h = refl
upper_code (c ∷ t) h = ground (arith, upper_code t)

abbrev pub ascii : Characters
ascii = record { upper = upper; is_alnum = λ c. is_code_char c }

not_empty : brakes ∷ [] ≢ []
not_empty e = cc

both_not_empty : leak ∷ brakes ∷ [] ≢ []
both_not_empty e = cc

report_code_accepted_example :
    let code = (resolve_fault_payload ascii (report (brakes ∷ [])) 9 100).code in
    (3 ≤ length code)
    × (length code ≤ 20)
    × ((fault_code upper code ≡ ok code) ↔ (all_code_chars code ≡ true))
report_code_accepted_example =
    report_code_accepted ascii (report (brakes ∷ [])) 9 100 upper_code not_empty

-- A code of three letters of Persian, which Python counts as alphanumeric.
abbrev persian : Characters
persian = record { upper = λ (t : Text). t; is_alnum = λ (c : ℕ). true }

abbrev persian_code : Text
persian_code = 1705 ∷ 1583 ∷ 1740 ∷ []

report_bounds_example :
    Bounds (resolve_fault_payload ascii (report (leak ∷ brakes ∷ [])) 9 100) (leak ∷ brakes ∷ [])
report_bounds_example = report_bounds ascii (report (leak ∷ brakes ∷ [])) 9 100 both_not_empty
