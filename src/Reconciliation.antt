-- ===== src/Reconciliation.antt =====
-- src/services/hosting/providerReconciliationService.ts: the provider's inventory is compared with the
-- resources of the workspaces.
pub mod Snapshot
pub mod Inventory
pub mod Runs
pub mod Clean
pub mod Owned
pub mod Fallback
pub mod Missing
mod Tests
