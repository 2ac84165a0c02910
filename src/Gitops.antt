-- ===== src/Gitops.antt =====
-- backend/app/gitops: how the drift of a deployment from Git is classified.
pub mod Drift
pub mod Classified
