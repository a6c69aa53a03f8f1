-- ===== src/Integration.antt =====
-- The SAP integration domain: the transaction record, its table, and the manager through which
-- every SAP write goes.
pub mod Transaction
pub mod Repository
pub mod Manager
pub mod Budget
pub mod Replay
pub mod Examples
