-- ===== src/Errors.antt =====
-- backend/app/errors.py: the domain error by its code and HTTP status (its text is left out), the
-- exceptions of pydantic, the database and the Kubernetes client that the code does not catch, and the result of code
-- that may raise.
use cloud_ward.Prelude.{ℕ}

pub data ErrorCode : Type 0 where
  invalid_incident_transition unknown_action action_environment_denied ai_diagnosis_unavailable
        ai_action_not_suggested notification_not_found notification_retries_exhausted
        notifier_unknown kubernetes_client_unavailable argocd_api_error :
      ErrorCode
  action_not_implemented forbidden incident_not_found : ErrorCode
  invalid_kubernetes_target invalid_kubernetes_selector kubernetes_api_error : ErrorCode
  kubernetes_namespace_denied kubernetes_target_denied kubernetes_target_healthy : ErrorCode
  kubernetes_action_failed scale_bound_exceeded stale_action_target invalid_health_path : ErrorCode
  runbook_not_found runbook_precondition_failed unsafe_target_count retry_policy_denied : ErrorCode
  invalid_approval_decision approval_not_found approval_already_decided : ErrorCode
  approval_context_missing approval_role_insufficient high_risk_action_blocked : ErrorCode
  remediation_attempt_limit action_approval_required approved_action_already_claimed : ErrorCode
  rollback_state_unavailable action_proposal_not_found : ErrorCode
  reliability_target_denied reliability_target_unavailable : ErrorCode

-- `transport_error` is whatever the Kubernetes client raises besides an ApiException.
-- `out_of_rounds` is no exception: a loop has used up the rounds that the model gives it.
pub data PythonError : Type 0 where
  validation_error integrity_error transport_error out_of_rounds : PythonError

-- `CloudWardError(code, message, status_code=…)`, and what is not a CloudWardError.
pub data Exception : Type 0 where
  cloud_ward_error : ErrorCode → ℕ → Exception
  python_error : PythonError → Exception

pub data Result {ℓ} (A : Type ℓ) : Type ℓ where
  ok : A → Result A
  err : Exception → Result A

abbrev pub raised {ℓ} : {A : Type ℓ} → ErrorCode → ℕ → Result A
raised code status = err (cloud_ward_error code status)

infixl 5 ◌>>=◌
abbrev pub ◌>>=◌ {ℓ κ} : {A : Type ℓ} {B : Type κ} → Result A → (A → Result B) → Result B
ok a >>= f = f a
err e >>= f = err e
