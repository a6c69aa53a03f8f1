-- ===== src/Repair.antt =====
-- The repair domain, apps/repair/domain: the order's statuses, its record and its methods, and
-- what holds of every sequence of method calls.
pub mod Status
pub mod Order
pub mod Lifecycle
pub mod Fits
pub mod Consistent
pub mod Closing
pub mod Failure
pub mod Examples
pub mod Activities
pub mod Parts
pub mod Edits
pub mod Referral
pub mod Event
pub mod Costs
pub mod External
pub mod Values
pub mod Identity
