-- ===== src/Approvals.antt =====
-- backend/app/approvals/service.py: the approval that is requested for a proposal, and the one
-- decision on it.
pub mod Request
pub mod Stale
pub mod Decide
pub mod Sound
pub mod Grant
pub mod Once
pub mod Bound
