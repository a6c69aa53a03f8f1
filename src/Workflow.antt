-- ===== src/Workflow.antt =====
-- The services, and the database that they work on.
pub mod Table
pub mod Stored
pub mod Database
pub mod Steps
pub mod Transport
pub mod Handovers
pub mod Distribution
pub mod Workshop
pub mod Editing
pub mod External
pub mod Delivery
pub mod Review
pub mod Decision
pub mod Invoices
pub mod Materials
pub mod Faults
pub mod Inspections
pub mod Checklist
pub mod Purchases
pub mod Receipts
pub mod Parts
pub mod Frame
pub mod Reported
pub mod OneFault
pub mod OneReceipt
pub mod Requested
pub mod Decided
pub mod Settled
pub mod Stock
pub mod Lines
pub mod Failures
pub mod Rules
pub mod Advance
pub mod Quiet
pub mod Change
pub mod OneOrder
pub mod Requests
pub mod Saved
pub mod Refusals
pub mod Reload
pub mod Commits
pub mod Success
pub mod Samples
pub mod Examples
pub mod ReportExamples
pub mod ReceiptExamples
