-- ===== src/Quota.antt =====
-- src/services/usage/quotaEngine.ts: what a workspace may use, and the reservations of it.
pub mod Decision
pub mod Entitlement
pub mod Reservations
mod Tests
