-- ===== src/Fault.antt =====
-- The aggregate `Fault` (apps/fault/domain/entities.py).
pub mod Status
pub mod Entity
pub mod Values
pub mod Report
pub mod Payload
pub mod Kept
pub mod Lifecycle
pub mod Examples
