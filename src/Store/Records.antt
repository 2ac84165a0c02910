-- ===== src/Store/Records.antt =====
-- backend/app/db/models.py: the rows and enumerations that the modelled operations read and write.
-- Times and identifiers are numbers. The free-form dictionaries of timeline, audit and stream rows
-- (payloads for display) are left out; those that some code reads are typed records here.
use cloud_ward.Prelude.{ℕ, Bool, String, Option}
use cloud_ward.Incidents.Machine.{IncidentState}
use cloud_ward.Actions.Registry.{ActionType}
use cloud_ward.Risk.Engine.{RiskFactors}

pub data Environment : Type 0 where
  local staging production : Environment

-- `environment.value`
abbrev pub environment_value : Environment → String
environment_value local = "local"
environment_value staging = "staging"
environment_value production = "production"

pub data ActorType : Type 0 where
  system user service : ActorType

pub data RecordStatus : Type 0 where
  pending running succeeded failed rejected cancelled : RecordStatus

pub data ResolutionSource : Type 0 where
  cloudward_remediation platform_self_healing human_action external_system unknown :
      ResolutionSource

pub data ApprovalDecision : Type 0 where
  undecided approved refused expired invalidated : ApprovalDecision

-- Why a target is stale (`_live_target`).
pub data TargetReason : Type 0 where
  no_namespace replicas_changed image_changed no_live_pods no_workload : TargetReason

-- Why an approval is invalidated (`_stale_reason` and `decide`).
pub data InvalidReason : Type 0 where
  context_missing approval_expired already_executed context_changed : InvalidReason
  approval_not_required invalid_risk_factors policy_denies : InvalidReason
  incident_moved : IncidentState → InvalidReason
  proposal_moved : RecordStatus → InvalidReason
  target_stale : TargetReason → InvalidReason

pub record Incident : Type 0 where
  pub id : ℕ
  pub correlation_id : String
  pub cluster_id : Option ℕ
  pub service_id : Option ℕ
  pub incident_type : String
  pub title : String
  pub summary : Option String
  pub environment : Environment
  pub state : IncidentState
  pub severity : String
  pub risk_score : Option ℕ
  pub retry_count : ℕ
  pub runbook_id : Option String
  pub runbook_version : Option ℕ
  pub resolved_at : Option ℕ
  pub resolution_source : Option ResolutionSource

pub record IncidentEvent : Type 0 where
  pub event_type : String
  pub from_state : Option IncidentState
  pub to_state : IncidentState
  pub actor : String
  pub actor_type : ActorType

pub record StreamEvent : Type 0 where
  pub event_type : String
  pub incident_id : ℕ

pub record AuditEvent : Type 0 where
  pub event_type : String
  pub incident_id : ℕ
  pub actor : String
  pub actor_type : ActorType
  pub actor_id : Option ℕ
  pub action : Option ActionType
  pub risk_score : Option ℕ
  pub policy_decision : Option String
  pub result : String

-- The keys of `ActionProposal.parameters` that some code reads; `none` is an absent key.
pub record Parameters : Type 0 where
  pub namespace : Option String
  pub deployment : Option String
  pub pod_name : Option String
  pub pod : Option String
  pub target_count : Option ℕ
  pub observed_replicas : Option ℕ
  pub expected_current_tag : Option String
  pub diagnosis_id : Option ℕ

-- `ActionProposal.risk_calculation`: the stored factors (`none` if the key is missing) and the key
-- `confidence`, in hundredths.
pub record RiskCalculation : Type 0 where
  pub factors : Option RiskFactors
  pub confidence : Option ℕ

pub record ActionProposal : Type 0 where
  pub id : ℕ
  pub incident_id : ℕ
  pub action_type : ActionType
  pub parameters : Parameters
  pub status : RecordStatus
  pub risk_score : ℕ
  pub risk_calculation : RiskCalculation
  pub proposed_by : String

-- The dictionary that `approvals.service._context` builds.
pub record ApprovalContext : Type 0 where
  pub incident_id : ℕ
  pub incident_state : IncidentState
  pub proposal_id : ℕ
  pub proposal_version : ℕ
  pub action : ActionType
  pub risk_score : ℕ
  pub parameters : Parameters

pub record Approval : Type 0 where
  pub id : ℕ
  pub incident_id : ℕ
  pub proposal_id : ℕ
  pub actor_id : Option ℕ
  pub decision : ApprovalDecision
  pub reason : Option String
  pub action : ActionType
  pub environment : Environment
  pub risk_score : ℕ
  pub blast_radius : ℕ
  pub reversible : Bool
  pub requested_by : String
  pub runbook : Option String
  pub proposal_version : ℕ
  pub expected_state : ApprovalContext
  pub context_digest : ℕ
  pub expires_at : ℕ
  pub decided_at : Option ℕ
  pub decided_by : Option String
  pub decision_comment : Option String
  pub invalidated_reason : Option InvalidReason
  pub execution_claimed_at : Option ℕ
  pub execution_reference : Option ℕ

pub record PolicyDecision : Type 0 where
  pub incident_id : ℕ
  pub proposal_id : ℕ
  pub allowed : Bool
  pub requires_approval : Bool

-- What an execution leaves in `ActionExecution.result`; `scale_result` has the previous and the
-- requested replicas.
pub data ActionResult : Type 0 where
  empty_result : ActionResult
  detail_result : String → ActionResult
  deletion_result : String → String → ActionResult
  scale_result : String → String → ℕ → ℕ → ActionResult

pub record ActionExecution : Type 0 where
  pub id : ℕ
  pub incident_id : ℕ
  pub proposal_id : ℕ
  pub action_type : ActionType
  pub attempt : ℕ
  pub status : RecordStatus
  pub result : ActionResult
  pub error_code : Option String
  pub completed_at : Option ℕ
  pub idempotency_key : Option ℕ
  pub rollback_of_execution_id : Option ℕ
  pub rolled_back_at : Option ℕ

-- evidence/types.py
pub data EvidenceType : Type 0 where
  kubernetes_state kubernetes_event health_check metric metric_summary : EvidenceType
  log log_summary trace trace_summary deployment deployment_state : EvidenceType
  git_change security_event fin_ops : EvidenceType

pub record EvidenceSnapshot : Type 0 where
  pub evidence_type : EvidenceType
  pub summary : String

pub record RunbookExecution : Type 0 where
  pub id : ℕ
  pub runbook_id : String
  pub runbook_version : ℕ
  pub status : RecordStatus

pub record VerificationRecord : Type 0 where
  pub id : ℕ
  pub action_execution_id : Option ℕ
  pub attempt : ℕ
  pub success : Bool
