-- ===== src/Procurement.antt =====
-- The procurement domain (apps/procurement/domain/entities.py): requisitions and orders.
pub mod Values
pub mod Requisition
pub mod Order
pub mod Examples
