-- ===== src/Provisioning.antt =====
-- src/services/provisioning/provisioningService.ts: the queue of provisioning jobs and the worker
-- that claims them, submits them to the hosting provider and follows them to their end.
pub mod Model
pub mod Queue
pub mod Claim
pub mod Pass
pub mod Worker
mod Samples
mod Tests
