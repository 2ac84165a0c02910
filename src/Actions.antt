-- ===== src/Actions.antt =====
-- backend/app/remediation/actions.py: the allowlist of executable actions and its gates.
pub mod Registry
