-- ===== src/Transfers.antt =====
-- src/services/databases/databaseTransferJobService.ts: imports and exports of databases as jobs that a
-- worker claims, executes and cleans up.
pub mod Model
pub mod Execution
pub mod Worker
pub mod Harmless
pub mod Stuck
pub mod Passes
pub mod Requests
pub mod Blocked
pub mod Backups
pub mod Drained
mod Tests
