-- ===== src/Verification.antt =====
-- backend/app/verification: the checks that follow a remediation, and the record of a verdict.
pub mod Engine
pub mod Checks
pub mod Clock
pub mod Polling
pub mod Found
pub mod Outcome
pub mod Settled
