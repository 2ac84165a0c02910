-- ===== src/Platform.antt =====
-- What the control plane calls and does not implement: the clock, the Kubernetes API, OPA, the
-- hash behind the digests, two regular expressions, and floats. Each call of the outside reads and
-- changes a `World`, so two calls may see different states of it.
use cloud_ward.Prelude.{ℕ, Bool, String, Option, List}
use cloud_ward.Risk.Floats.{Floats}
use cloud_ward.Risk.Engine.{RiskFactors}
use cloud_ward.Actions.Registry.{ActionType}
use cloud_ward.Store.Records.{ApprovalContext, Parameters}

-- A Deployment as the Kubernetes API returns it.
pub record ApiDeployment : Type 0 where
  -- `spec.replicas or 0`, `status.ready_replicas or 0`
  pub replicas : ℕ
  pub ready_replicas : ℕ
  pub images : List String
  pub template_labels : List (String × String)

-- backend/app/kubernetes/executor.py: `DeploymentState` and `PodState`, without what is only shown.
pub record DeploymentState : Type 0 where
  pub namespace : String
  pub name : String
  pub desired_replicas : ℕ
  pub ready_replicas : ℕ
  pub container_images : List String

pub record PodState : Type 0 where
  pub namespace : String
  pub name : String
  pub ready : Bool
  pub labels : List (String × String)
  pub controller_managed : Bool
  pub controller_kind : Option String
  pub restart_count : ℕ

-- How a request to the Kubernetes API ends: with an answer, with an ApiException, or with another
-- exception of its client, such as a connection that fails.
pub data KubernetesReply {ℓ} (A : Type ℓ) : Type ℓ where
  answered : A → KubernetesReply A
  api_exception transport_failed : KubernetesReply A

-- What the API proxy answers to a health request: a payload that is no JSON object, or an object with the lower-case text of its `status` (or else `state`, or else "ok").
pub data HealthReply : Type 0 where
  other_payload : HealthReply
  object_payload : String → HealthReply

-- backend/app/policies/opa.py: `TargetInput`, `ApprovalInput`, `PolicyInput`, `PolicyResult`.
pub record TargetInput : Type 0 where
  pub namespace : String
  pub pod_name : String
  pub labels : List (String × String)
  pub controller_managed : Bool
  pub target_pods : ℕ

pub record ApprovalInput : Type 0 where
  pub approved : Bool
  pub approval_id : Option ℕ
  pub approved_by : Option String

pub record PolicyInput (F : Floats) : Type 0 where
  pub environment : String
  pub action : ActionType
  pub risk_score : ℕ
  pub risk_factors : RiskFactors
  pub confidence : F.Float
  pub blast_radius : ℕ
  pub reversible : Bool
  pub service_criticality : String
  pub target : TargetInput
  pub approval : ApprovalInput

pub record PolicyResult : Type 0 where
  pub allowed : Bool
  pub requires_approval : Bool
  pub reason : String
  pub error_code : Option String

-- The reply to the decision request: a transport or status error or a body that is no JSON, a body
-- with no `result`, a `result` that is no valid decision, or a decision.
pub data OpaReply : Type 0 where
  request_failed no_result invalid_result : OpaReply
  decided : PolicyResult → OpaReply

pub record Platform : Type 1 where
  pub floats : Floats
  pub World : Type 0
  pub now : World → ℕ × World
  -- `time.monotonic()` and `asyncio.sleep`, in milliseconds.
  pub monotonic : World → ℕ × World
  pub sleep : ℕ → World → World
  pub read_deployment : String → String → World → KubernetesReply ApiDeployment × World
  pub list_pods : String → String → World → KubernetesReply (List PodState) × World
  pub read_pod : String → String → World → KubernetesReply PodState × World
  pub remove_pod : String → String → World → KubernetesReply (Unit {0}) × World
  pub patch_scale : String → String → ℕ → World → KubernetesReply (Unit {0}) × World
  pub proxy_health : String → String → String → World → KubernetesReply HealthReply × World
  pub post_policy : PolicyInput floats → World → OpaReply × World
  -- `_digest`: sha256 of the canonical JSON text.
  pub digest : ApprovalContext → ℕ
  -- `action_idempotency_key`: sha256 of the incident, the runbook, the action, the attempt and the
  -- canonical JSON of the target.
  pub action_key : ℕ → String → ActionType → ℕ → Parameters → ℕ
  -- sha256 of "rollback:{execution}:{replicas}".
  pub rollback_key : ℕ → ℕ → ℕ
  -- `len(value) <= 253 and DNS_LABEL.fullmatch(value)`
  pub is_dns_label : String → Bool
  pub is_safe_selector : String → Bool
  -- `path.strip("/")`, and the test of the stripped path.
  -- `text.endswith(":" + tag)`
  pub ends_with_tag : String → String → Bool
  pub strip_slashes : String → String
  pub is_health_path : String → Bool
