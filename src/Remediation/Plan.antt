-- ===== src/Remediation/Plan.antt =====
-- backend/app/remediation/pipeline.py: what the pipeline works on, and its steps up to the policy.
use cloud_ward.Prelude.{
  ℕ, ◌+◌, ltb, not, ◌&&◌, String, Bool, true, false, Option, none, some, List, [], ◌∷◌, str_eq,
  keep, length,
}
use cloud_ward.Errors.{
  python_error, validation_error, unsafe_target_count, runbook_precondition_failed,
}
use cloud_ward.Incidents.Machine.{
  IncidentState, collecting_evidence, classifying, action_proposed, policy_evaluation,
}
use cloud_ward.Incidents.Service.{
  Details, no_details, audit_row, set_incident, change_incident_state,
}
use cloud_ward.Actions.Registry.{ActionType, typed, require_executable_action}
use cloud_ward.Risk.Floats.{Floats}
use cloud_ward.Risk.Engine.{RiskContext, RiskResult, none_sensitive, calculate}
use cloud_ward.Store.Records.{
  Environment, environment_value, ActorType, Parameters, ActionProposal, EvidenceType,
  kubernetes_state, health_check, pending, running,
}
use cloud_ward.Store.Case.{Case}
use cloud_ward.Settings.{Settings}
use cloud_ward.Platform.{Platform, PodState, PolicyInput, PolicyResult}
use cloud_ward.Policy.{checked_input, evaluate}
use cloud_ward.Exec.{Exec, pure, raise, lift, rows, on_rows, commit, ◌>>=◌, ◌>>◌}
use cloud_ward.Kubernetes.Executor.{cloud_error, ensure, get_service_health}
use cloud_ward.Verification.Engine.{VerificationResult, VerificationTarget}
use cloud_ward.Runbooks.Schema.{RunbookDocument}
use cloud_ward.Runbooks.Loader.{match_runbook}
use cloud_ward.Evidence.{KubernetesEvidence, unhealthy_pods, collect_kubernetes_state}

pub record UnhealthyPodTarget : Type 0 where
  pub namespace : String
  pub deployment : String
  pub service_name : String
  pub label_selector : String
  pub pod_name : Option String
  pub expected_replicas : ℕ
  pub environment : Environment
  pub health_path : String

pub record PipelineOutcome : Type 0 where
  pub incident_id : ℕ
  pub state : IncidentState
  pub risk_score : Option ℕ
  pub policy : Option PolicyResult
  pub verification : Option VerificationResult
  pub attempts : ℕ

-- The arguments `actor` and `actor_type`, which every step passes on.
pub record Actor : Type 0 where
  pub actor : String
  pub actor_type : ActorType

-- The local variables of `_process` once the action is proposed.
pub record Plan : Type 0 where
  pub pod : PodState
  pub runbook : RunbookDocument
  pub risk : RiskResult
  pub proposal : ActionProposal
  pub runbook_execution_id : ℕ

-- The arguments of `verify_until` that name the workload.
abbrev pub verification_target : UnhealthyPodTarget → VerificationTarget
verification_target target = record {
  namespace = target.namespace;
  deployment = target.deployment;
  label_selector = target.label_selector;
  expected_replicas = target.expected_replicas;
  service_name = target.service_name;
  health_path = target.health_path;
}

-- `_proposal_parameters`
unfoldable pub proposal_parameters : UnhealthyPodTarget → PodState → Parameters
proposal_parameters target pod = record {
  namespace = some target.namespace;
  deployment = some target.deployment;
  pod_name = some pod.name;
  pod = none;
  target_count = none;
  observed_replicas = none;
  expected_current_tag = none;
  diagnosis_id = none;
}

unfoldable pub new_proposal : ℕ → ℕ → ActionType → Parameters → RiskResult → ActionProposal
new_proposal id incident_id action parameters risk = record {
  id = id;
  incident_id = incident_id;
  action_type = action;
  parameters = parameters;
  status = pending;
  risk_score = risk.score;
  risk_calculation = record { factors = some risk.factors; confidence = none };
  proposed_by = "cloudward";
}

unfoldable pub add_snapshot : EvidenceType → String → Case → Case
add_snapshot evidence_type summary c = record c {
  snapshots = record { evidence_type = evidence_type; summary = summary } ∷ c.snapshots;
}

unfoldable pub add_runbook_execution : RunbookDocument → Case → Case
add_runbook_execution runbook c = record c {
  runbook_executions =
      record {
        id = c.next_id;
        runbook_id = runbook.id;
        runbook_version = runbook.version;
        status = running;
      }
      ∷ c.runbook_executions;
  next_id = c.next_id + 1;
}

unfoldable pub add_proposal : ActionProposal → Case → Case
add_proposal proposal c = record c { proposals = proposal ∷ c.proposals; next_id = c.next_id + 1 }

unfoldable pub add_decision : ℕ → PolicyResult → Case → Case
add_decision proposal_id policy c = record c {
  decisions =
      record {
        incident_id = c.incident.id;
        proposal_id = proposal_id;
        allowed = policy.allowed;
        requires_approval = policy.requires_approval;
      }
      ∷ c.decisions;
}

abbrev pub is_requested : Option String → PodState → Bool
is_requested none pod = true
is_requested (some name) pod = str_eq pod.name name

-- The context of the pipeline's risk score; its confidence is 0.98.
abbrev pub pipeline_context : (F : Floats) → UnhealthyPodTarget → ActionType → Bool → RiskContext F
pipeline_context F target action reversible = record {
  environment = environment_value target.environment;
  action = action;
  target_count = 1;
  reversible = some reversible;
  confidence = F.hundredths 98;
  sensitivity = none_sensitive;
  destructive_override = false;
}

-- `_policy_input`
unfoldable pub policy_input :
    (F : Floats) → UnhealthyPodTarget → PodState → ActionType → RiskResult → PolicyInput F
policy_input F target pod action risk = record {
  environment = environment_value target.environment;
  action = action;
  risk_score = risk.score;
  risk_factors = risk.factors;
  confidence = F.hundredths 98;
  blast_radius = 1;
  reversible = true;
  service_criticality = "low";
  target = record {
    namespace = target.namespace;
    pod_name = pod.name;
    labels = pod.labels;
    controller_managed = pod.controller_managed;
    target_pods = 1;
  };
  approval = record { approved = false; approval_id = none; approved_by = none };
}

module _ {P : Platform} where
  -- `len(candidates) != 1`
  abbrev pub only_pod : List PodState → Exec P PodState
  only_pod [] = cloud_error unsafe_target_count 409
  only_pod (pod ∷ []) = pure pod
  only_pod (pod ∷ other ∷ rest) = cloud_error unsafe_target_count 409

  -- `_select_unhealthy_pod`
  unfoldable pub select_unhealthy_pod : KubernetesEvidence → Option String → Exec P PodState
  select_unhealthy_pod evidence requested =
      only_pod (keep (is_requested requested) (unhealthy_pods evidence))

  -- `_validate_preconditions`
  unfoldable pub validate_preconditions :
      RunbookDocument → KubernetesEvidence → PodState → Exec P (Unit {0})
  validate_preconditions runbook evidence pod = do
    ensure (not (ltb runbook.preconditions.max_target_pods (length (unhealthy_pods evidence))))
        runbook_precondition_failed 400
    ensure (not (runbook.preconditions.controller_managed && not pod.controller_managed))
        runbook_precondition_failed 400

  -- An unforced change of the state by the actor of the run.
  abbrev pub change : Settings → Actor → IncidentState → Details → Exec P (Unit {0})
  change settings who target details =
      change_incident_state settings target who.actor who.actor_type details false

  -- `record_audit`, by the actor of the run.
  abbrev pub audit :
      Actor → String → Option ActionType → Option ℕ → Option String → String → Exec P (Unit {0})
  audit who event action risk_score decision result =
      on_rows (audit_row event who.actor who.actor_type action risk_score decision result)

  -- The evidence, which is committed before anything is decided.
  unfoldable pub gather_evidence : Settings → Actor → UnhealthyPodTarget → Exec P KubernetesEvidence
  gather_evidence settings who target = do
    change settings who collecting_evidence no_details
    evidence ← collect_kubernetes_state target.namespace target.deployment target.label_selector
    on_rows (add_snapshot kubernetes_state "Deployment and pod readiness snapshot")
    get_service_health target.namespace target.service_name target.health_path
    on_rows (add_snapshot health_check "Application health through Kubernetes service proxy")
    audit who "EVIDENCE_COLLECTED" none none none "SUCCEEDED"
    commit
    pure evidence

  -- The runbook of the incident; the id of its execution is returned with it.
  unfoldable pub select_runbook :
      Settings
      → Actor
      → UnhealthyPodTarget
      → List RunbookDocument
      → KubernetesEvidence
      → PodState
      → Exec P (RunbookDocument × ℕ)
  select_runbook settings who target runbooks evidence pod = do
    change settings who classifying no_details
    runbook ←
        match_runbook runbooks "reliability" ("pod_unhealthy" ∷ [])
          (environment_value target.environment)
    validate_preconditions runbook evidence pod
    c ← rows
    on_rows (
        set_incident
          (λ i. record i { runbook_id = some runbook.id; runbook_version = some runbook.version }))
    on_rows (add_runbook_execution runbook)
    audit who "RUNBOOK_SELECTED" (some runbook.action) none none "SUCCEEDED"
    change settings who action_proposed no_details
    pure (runbook, c.next_id)

  abbrev pub or_invalid : Option RiskResult → Exec P RiskResult
  or_invalid none = raise (python_error validation_error)
  or_invalid (some risk) = pure risk

  -- The action of the runbook, its risk and its proposal.
  unfoldable pub propose_action :
      Settings → Actor → UnhealthyPodTarget → PodState → RunbookDocument × ℕ → Exec P Plan
  propose_action settings who target pod selected = do
    metadata ←
        lift (
          require_executable_action (typed selected.0.action)
            (environment_value target.environment))
    risk ← or_invalid (
        calculate P.floats (pipeline_context P.floats target selected.0.action metadata.reversible))
    on_rows (set_incident (λ i. record i { risk_score = some risk.score }))
    c ← rows
    let proposal =
        new_proposal c.next_id c.incident.id selected.0.action (proposal_parameters target pod) risk
    on_rows (add_proposal proposal)
    audit who "ACTION_PROPOSED" (some selected.0.action) (some risk.score) none "SUCCEEDED"
    audit who "RISK_CALCULATED" (some selected.0.action) (some risk.score) none "SUCCEEDED"
    change settings who policy_evaluation no_details
    let plan : Plan = record {
      pod = pod;
      runbook = selected.0;
      risk = risk;
      proposal = proposal;
      runbook_execution_id = selected.1;
    }
    pure plan

  -- The policy's answer for a pod, which is recorded as a decision on the proposal.
  unfoldable pub ask_policy :
      UnhealthyPodTarget → PodState → ActionType → RiskResult → ℕ → Exec P PolicyResult
  ask_policy target pod action risk proposal_id = do
    input ← checked_input (policy_input P.floats target pod action risk)
    policy ← evaluate input
    on_rows (add_decision proposal_id policy)
    pure policy
