-- ===== src/Remediation.antt =====
-- backend/app/remediation/pipeline.py: the remediation of an unhealthy pod, from the evidence to the
-- verification.
pub mod Plan
pub mod Rounds
pub mod Pipeline
pub mod Holds
pub mod Steps
pub mod Proposal
pub mod Deletion
pub mod Loop
pub mod Process
pub mod Outcome
