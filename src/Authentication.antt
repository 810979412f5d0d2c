-- ===== src/Authentication.antt =====
-- src/controllers/AuthController.ts and src/services/auth: the one-time codes with which users sign
-- in, the refresh tokens of their sessions, and the handoff of a session to another origin.
pub mod Model
pub mod Codes
pub mod Requests
pub mod Resends
pub mod Verification
pub mod Writes
pub mod Kept
pub mod Allowance
pub mod Once
pub mod Attempts
pub mod Guesses
pub mod Bounded
pub mod Parallel
pub mod Uniform
pub mod Unkeyed
pub mod Admitted
pub mod Tokens
pub mod Rotation
pub mod Logouts
pub mod Spent
pub mod Handoffs
pub mod HandoffSteps
pub mod HandoffKept
pub mod Issued
pub mod Handed
pub mod Resent
mod Samples
mod Tests
mod SessionTests
