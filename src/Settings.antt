-- ===== src/Settings.antt =====
-- backend/app/config.py: the settings that the modelled operations read.
use cloud_ward.Prelude.{ℕ, Bool, String, List}

pub record Settings : Type 0 where
  -- `app_env == "test"`
  pub app_env_is_test : Bool
  pub approval_ttl_seconds : ℕ
  -- MAX_REMEDIATION_ATTEMPTS, from 1 to 3
  pub max_remediation_attempts : ℕ
  pub max_temporary_replicas : ℕ
  pub automatic_rollback_max_risk : ℕ
  -- The namespaces in which the Kubernetes executor may act.
  pub allowed_namespaces : List String
  pub local_gitops_write_enabled : Bool
  -- The settings VERIFICATION_TIMEOUT_SECONDS and VERIFICATION_POLL_SECONDS, in milliseconds.
  pub verification_timeout : ℕ
  pub verification_poll : ℕ
