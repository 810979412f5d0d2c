-- ===== src/PlatformDeployments.antt =====
-- src/services/operations/platformDeploymentService.ts: the panel deploys itself.
pub mod Status
pub mod Rows
pub mod Start
pub mod Refresh
pub mod Exclusive
pub mod Starts
pub mod History
pub mod Polls
mod Tests
