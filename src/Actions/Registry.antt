-- ===== src/Actions/Registry.antt =====
-- backend/app/remediation/actions.py: the action types, their fixed metadata, and the two lookups
-- through which every proposal and every execution goes.
use cloud_ward.Prelude.{
  Bool, true, false, List, [], ◌∷◌, String, Option, none, some, has_text, not, str_eq,
  if◌then◌else◌,
}
use cloud_ward.Errors.{
  Result, ok, raised, ◌>>=◌, unknown_action, action_environment_denied, action_not_implemented,
}
use cloud_ward.Rbac.{
  Permission, platform_read, demo_trigger, action_approve_standard, action_approve_higher_risk,
}

pub data ActionType : Type 0 where
  delete_unhealthy_pod restart_pod scale_staging_deployment scale_workload : ActionType
  revert_image rollback_deployment apply_quarantine quarantine_workload : ActionType
  remove_quarantine create_gitops_pr create_terraform_pr create_github_issue : ActionType
  request_approval no_action : ActionType

-- `ActionType(text)`; `none` is the ValueError for a text that names no action.
unfoldable pub parse_action : String → Option ActionType
parse_action text =
    if str_eq text "DELETE_UNHEALTHY_POD"
    then some delete_unhealthy_pod
    else if str_eq text "RESTART_POD"
    then some restart_pod
    else if str_eq text "SCALE_STAGING_DEPLOYMENT"
    then some scale_staging_deployment
    else if str_eq text "SCALE_WORKLOAD"
    then some scale_workload
    else if str_eq text "REVERT_IMAGE"
    then some revert_image
    else if str_eq text "ROLLBACK_DEPLOYMENT"
    then some rollback_deployment
    else if str_eq text "APPLY_QUARANTINE"
    then some apply_quarantine
    else if str_eq text "QUARANTINE_WORKLOAD"
    then some quarantine_workload
    else if str_eq text "REMOVE_QUARANTINE"
    then some remove_quarantine
    else if str_eq text "CREATE_GITOPS_PR"
    then some create_gitops_pr
    else if str_eq text "CREATE_TERRAFORM_PR"
    then some create_terraform_pr
    else if str_eq text "CREATE_GITHUB_ISSUE"
    then some create_github_issue
    else if str_eq text "REQUEST_APPROVAL"
    then some request_approval
    else if str_eq text "NO_ACTION"
    then some no_action
    else none

-- `action.value`
unfoldable pub action_value : ActionType → String
action_value delete_unhealthy_pod = "DELETE_UNHEALTHY_POD"
action_value restart_pod = "RESTART_POD"
action_value scale_staging_deployment = "SCALE_STAGING_DEPLOYMENT"
action_value scale_workload = "SCALE_WORKLOAD"
action_value revert_image = "REVERT_IMAGE"
action_value rollback_deployment = "ROLLBACK_DEPLOYMENT"
action_value apply_quarantine = "APPLY_QUARANTINE"
action_value quarantine_workload = "QUARANTINE_WORKLOAD"
action_value remove_quarantine = "REMOVE_QUARANTINE"
action_value create_gitops_pr = "CREATE_GITOPS_PR"
action_value create_terraform_pr = "CREATE_TERRAFORM_PR"
action_value create_github_issue = "CREATE_GITHUB_ISSUE"
action_value request_approval = "REQUEST_APPROVAL"
action_value no_action = "NO_ACTION"

pub data VerificationStrategy : Type 0 where
  no_verification kubernetes_and_http deployment_rollout policy_state : VerificationStrategy
  external_record : VerificationStrategy

pub record ActionMetadata : Type 0 where
  pub action_type : ActionType
  pub reversible : Bool
  pub persistent : Bool
  pub allowed_environments : List String
  pub required_permission : Permission
  pub verification_strategy : VerificationStrategy
  pub rollback_capable : Bool
  pub implemented : Bool

abbrev pub lower_environments : List String
lower_environments = "local" ∷ "staging" ∷ []

abbrev pub all_environments : List String
all_environments = "local" ∷ "staging" ∷ "production" ∷ []

-- ACTION_REGISTRY
abbrev pub action_registry : ActionType → ActionMetadata
action_registry delete_unhealthy_pod = record {
  action_type = delete_unhealthy_pod;
  reversible = true;
  persistent = false;
  allowed_environments = lower_environments;
  required_permission = demo_trigger;
  verification_strategy = kubernetes_and_http;
  rollback_capable = false;
  implemented = true;
}
action_registry restart_pod = record {
  action_type = restart_pod;
  reversible = true;
  persistent = false;
  allowed_environments = all_environments;
  required_permission = demo_trigger;
  verification_strategy = kubernetes_and_http;
  rollback_capable = false;
  implemented = true;
}
action_registry scale_staging_deployment = record {
  action_type = scale_staging_deployment;
  reversible = true;
  persistent = false;
  allowed_environments = lower_environments;
  required_permission = action_approve_standard;
  verification_strategy = deployment_rollout;
  rollback_capable = true;
  implemented = true;
}
action_registry scale_workload = record {
  action_type = scale_workload;
  reversible = true;
  persistent = false;
  allowed_environments = all_environments;
  required_permission = action_approve_standard;
  verification_strategy = deployment_rollout;
  rollback_capable = true;
  implemented = true;
}
action_registry revert_image = record {
  action_type = revert_image;
  reversible = true;
  persistent = true;
  allowed_environments = all_environments;
  required_permission = action_approve_higher_risk;
  verification_strategy = deployment_rollout;
  rollback_capable = true;
  implemented = true;
}
action_registry rollback_deployment = record {
  action_type = rollback_deployment;
  reversible = true;
  persistent = true;
  allowed_environments = all_environments;
  required_permission = action_approve_higher_risk;
  verification_strategy = deployment_rollout;
  rollback_capable = true;
  implemented = true;
}
action_registry apply_quarantine = record {
  action_type = apply_quarantine;
  reversible = true;
  persistent = false;
  allowed_environments = all_environments;
  required_permission = action_approve_higher_risk;
  verification_strategy = policy_state;
  rollback_capable = true;
  implemented = true;
}
action_registry quarantine_workload = record {
  action_type = quarantine_workload;
  reversible = true;
  persistent = false;
  allowed_environments = all_environments;
  required_permission = action_approve_higher_risk;
  verification_strategy = policy_state;
  rollback_capable = true;
  implemented = true;
}
action_registry remove_quarantine = record {
  action_type = remove_quarantine;
  reversible = true;
  persistent = false;
  allowed_environments = all_environments;
  required_permission = action_approve_higher_risk;
  verification_strategy = policy_state;
  rollback_capable = true;
  implemented = true;
}
action_registry create_gitops_pr = record {
  action_type = create_gitops_pr;
  reversible = true;
  persistent = true;
  allowed_environments = all_environments;
  required_permission = action_approve_standard;
  verification_strategy = external_record;
  rollback_capable = true;
  implemented = false;
}
action_registry create_terraform_pr = record {
  action_type = create_terraform_pr;
  reversible = true;
  persistent = true;
  allowed_environments = all_environments;
  required_permission = action_approve_higher_risk;
  verification_strategy = external_record;
  rollback_capable = true;
  implemented = false;
}
action_registry create_github_issue = record {
  action_type = create_github_issue;
  reversible = true;
  persistent = true;
  allowed_environments = all_environments;
  required_permission = action_approve_standard;
  verification_strategy = external_record;
  rollback_capable = true;
  implemented = false;
}
action_registry request_approval = record {
  action_type = request_approval;
  reversible = true;
  persistent = false;
  allowed_environments = all_environments;
  required_permission = action_approve_standard;
  verification_strategy = no_verification;
  rollback_capable = false;
  implemented = false;
}
action_registry no_action = record {
  action_type = no_action;
  reversible = true;
  persistent = false;
  allowed_environments = all_environments;
  required_permission = platform_read;
  verification_strategy = no_verification;
  rollback_capable = false;
  implemented = true;
}

-- The argument `ActionType | str` of the lookups.
pub data ActionName : Type 0 where
  typed : ActionType → ActionName
  spelled : String → ActionName

unfoldable pub get_action_metadata : ActionName → Result ActionMetadata
get_action_metadata (typed action) = ok (action_registry action)
get_action_metadata (spelled text) = elim (parse_action text) [
  | some action ↦ ok (action_registry action)
  | none ↦ raised unknown_action 422
]

-- The two guards, in the order of the source.
abbrev pub executable_in : String → ActionMetadata → Result ActionMetadata
executable_in environment metadata =
    if not (has_text environment metadata.allowed_environments)
    then raised action_environment_denied 403
    else if not metadata.implemented
    then raised action_not_implemented 501
    else ok metadata

unfoldable pub require_executable_action : ActionName → String → Result ActionMetadata
unfolding get_action_metadata
require_executable_action action environment = do
  metadata ← get_action_metadata action
  executable_in environment metadata
