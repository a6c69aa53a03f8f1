-- ===== src/Fault/Kept.antt =====
-- The code that a report is given and that its fault keeps (`_safe_parent_code` of
-- apps/fault/application/services/report_fault_service.py).
use fmms.Prelude.{ℕ, ◌≡◌, ◌||◌, ◌==◌, true, Text, All}
use fmms.Fault.Report.{Characters}

-- The characters that a code may have for Python, letters outside ASCII among them.
abbrev pub IsCodeLike : Characters → Text → Type 0
IsCodeLike x t = All (λ (c : ℕ). (x.is_alnum c || (c == 45)) ≡ true) t
