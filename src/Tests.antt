-- ===== src/Tests.antt =====
-- Concrete runs of the modelled operations, on one demo target and a policy that allows.
pub mod World
mod Approvals
mod Execution
mod Incidents
mod Gates
mod Verification
pub mod Remediation
mod Ai
mod Alerts
mod Notifications
mod Gitops
