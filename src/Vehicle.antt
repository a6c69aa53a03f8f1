-- ===== src/Vehicle.antt =====
-- The vehicle domain, apps/vehicle/domain: validated texts, statuses and the aggregate.
pub mod Values
pub mod Status
pub mod Entity
pub mod Lifecycle
pub mod Examples
