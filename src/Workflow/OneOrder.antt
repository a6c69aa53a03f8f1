-- ===== src/Workflow/OneOrder.antt =====
-- The services keep the rule of one order for each fault.
pub mod Transport
pub mod Handovers
pub mod Distribution
pub mod Workshop
pub mod Decision
pub mod External
pub mod Closing
pub mod Reports
pub mod Checklists
pub mod Purchases
pub mod Requests
