-- ===== src/Fault/Report.antt =====
-- What a report makes of its payload: the code, the description, the severity and the items of the
-- fault (apps/fault/application/services/report_fault_service.py). `str.upper` and `str.isalnum`
-- read the character database of Python and are parameters.
use fmms.Prelude.{
  ℕ, zero, suc, Bool, true, false, not, ◌&&◌, ◌||◌, Option, none, List, [], ◌∷◌, ◌++◌, ◌==◌, Uuid,
  DateTime, Text, text_truthy, length, leb, ltb, if◌then◌else◌, strip, map, codes,
}
use fmms.Fault.Status.{FaultSeverity, critical, high, medium, low}
use fmms.Fault.Entity.{FaultItem}

-- `ReportFaultItemDTO`, with the id that the item gets.
pub record ItemData : Type 0 where
  pub item_id : Uuid
  pub code : Text
  pub component : Text
  pub description : Text
  pub severity : FaultSeverity

-- `ReportFaultDTO`, but for the user and the request.
pub record ReportData : Type 0 where
  pub vehicle_id : Uuid
  pub code : Text
  pub description : Text
  pub severity : FaultSeverity
  pub inspection_id : Option Uuid
  pub items : List ItemData

-- What Python knows of characters.
pub record Characters : Type 0 where
  pub upper : Text → Text
  pub is_alnum : ℕ → Bool

-- `"MULTI"`, `"MANUAL"` and `"Multiple reported faults"`
abbrev pub multi_fault_code : Text
multi_fault_code = codes "MULTI"

abbrev pub manual_code : Text
manual_code = codes "MANUAL"

abbrev pub multi_fault_description : Text
multi_fault_description = codes "Multiple reported faults"

-- `_SEVERITY_RANK`
unfoldable pub severity_rank : FaultSeverity → ℕ
severity_rank low = 0
severity_rank medium = 1
severity_rank high = 2
severity_rank critical = 3

-- The first of two severities, unless the second is worse.
unfoldable pub worse : FaultSeverity → FaultSeverity → FaultSeverity
unfolding severity_rank
worse a b = if ltb (severity_rank a) (severity_rank b) then b else a

-- `max(severities, key=...)`, from the first of them.
unfoldable pub max_severity : FaultSeverity → List FaultSeverity → FaultSeverity
unfolding worse
max_severity best [] = best
max_severity best (s ∷ l) = max_severity (worse best s) l

-- `a or b` on texts.
abbrev pub text_or : Text → Text → Text
text_or [] b = b
text_or (c ∷ t) b = c ∷ t

-- `text[:n]`
unfoldable pub take : ℕ → Text → Text
take zero t = []
take (suc n) [] = []
take (suc n) (c ∷ t) = c ∷ take n t

unfoldable pub starts_with : Text → Text → Bool
starts_with [] t = true
starts_with (c ∷ s) [] = false
starts_with (c ∷ s) (d ∷ t) = c == d && starts_with s t

-- `s in t`
unfoldable pub contains : Text → Text → Bool
unfolding starts_with
contains s [] = starts_with s []
contains s (d ∷ t) = starts_with s (d ∷ t) || contains s t

-- The characters that `_safe_parent_code` lets stand.
unfoldable pub cleaned : Characters → Text → Text
cleaned x [] = []
cleaned x (c ∷ t) = let rest = cleaned x t in if x.is_alnum c || (c == 45) then c ∷ rest else rest

-- `_safe_parent_code`
unfoldable pub safe_parent_code : Characters → Text → Text → Text
unfolding take cleaned
safe_parent_code x raw fallback =
    let code = take 20 (cleaned x (x.upper (strip raw))) in
    if leb 3 (length code) then code else fallback

-- `f"[{item.code}] {detail}"`
abbrev pub bracketed : Text → Text → Text
bracketed code detail = (91 ∷ code) ++ 93 ∷ 32 ∷ detail

-- `_build_fault_item`
unfoldable pub build_fault_item : Uuid → DateTime → ItemData → FaultItem
unfolding take contains
build_fault_item fault now i =
    let label = strip (text_or (text_or i.component i.description) i.code) in
    let detail = text_or (strip i.description) i.code in
    record {
      id = i.item_id;
      fault_id = fault;
      component = text_or (take 100 label) (take 100 i.code);
      description = take 500 (
          if text_truthy i.code && not (contains i.code detail)
          then bracketed i.code detail
          else detail);
      severity = i.severity;
      created_at = now;
      updated_at = now;
      inspection_item_id = none;
    }

pub record Payload : Type 0 where
  pub code : Text
  pub description : Text
  pub severity : FaultSeverity
  pub items : List FaultItem

-- `_resolve_fault_payload`
unfoldable pub resolve_items : Characters → ReportData → Uuid → DateTime → List ItemData → Payload
unfolding safe_parent_code build_fault_item max_severity
resolve_items x d fault now [] = record {
  code = d.code;
  description = d.description;
  severity = d.severity;
  items = [];
}
resolve_items x d fault now (only ∷ []) = record {
  code = safe_parent_code x (text_or (strip d.code) only.code) manual_code;
  description = text_or (strip d.description) only.description;
  severity = only.severity;
  items = build_fault_item fault now only ∷ [];
}
resolve_items x d fault now (first ∷ second ∷ l) = record {
  code = safe_parent_code x (text_or (strip d.code) multi_fault_code) multi_fault_code;
  description = text_or (strip d.description) multi_fault_description;
  severity = max_severity first.severity (map (λ (i : ItemData). i.severity) (second ∷ l));
  items = map (build_fault_item fault now) (first ∷ second ∷ l);
}

abbrev pub resolve_fault_payload : Characters → ReportData → Uuid → DateTime → Payload
resolve_fault_payload x d fault now = resolve_items x d fault now d.items
