-- ===== src/Execution.antt =====
-- backend/app/remediation/execution.py: claiming, finishing and rolling back executions.
pub mod Claim
pub mod Rollback
pub mod Bounds
pub mod Exactly
pub mod Once
pub mod Restore
