-- ===== src/Tests/World.antt =====
-- A concrete platform, settings and rows. Floats are hundredths here.
use cloud_ward.Prelude.{
  ℕ, ◌+◌, ◌-◌, ◌*◌, ◌/◌, refl, String, true, false, none, some, List, [], ◌∷◌, arith, leb, le→leb,
  leb→le,
}
use cloud_ward.Risk.Floats.{Floats}
use cloud_ward.Risk.Engine.{RiskFactors}
use cloud_ward.Actions.Registry.{delete_unhealthy_pod}
use cloud_ward.Incidents.Machine.{IncidentState, awaiting_approval}
use cloud_ward.Rbac.{Principal, admin}
use cloud_ward.Settings.{Settings}
use cloud_ward.Platform.{
  Platform, ApiDeployment, PodState, answered, object_payload, PolicyResult, decided,
}
use cloud_ward.Exec.{Session}
use cloud_ward.Store.Records.{
  staging, pending, Incident, Parameters, ActionProposal, ApprovalContext, Approval, undecided,
  approved, PolicyDecision, ApprovalDecision,
}
use cloud_ward.Store.Case.{Case}
use cloud_ward.Approvals.Request.{context}

abbrev pub whole_floats : Floats
whole_floats = record {
  Float = ℕ;
  at_most = leb;
  hundredths = λ n. n;
  one_minus = λ a. 100 - a;
  times_fifteen = λ a. a * 15;
  round = λ a. (a + 50) / 100;
  hundredths_mono = λ m n h. le→leb m n h;
  one_minus-zero = refl;
  one_minus_anti = λ a b h. le→leb (100 - b) (100 - a) (omega (arith, leb→le a b h));
  times_fifteen_mono = λ a b h. le→leb (a * 15) (b * 15) (omega (arith, leb→le a b h));
  round_mono = λ a b h. omega (arith, leb→le a b h);
  round-times_fifteen-one = refl;
}

abbrev pub demo_labels : List (String × String)
demo_labels = ("cloudward.io/demo-target", "true") ∷ []

abbrev pub demo_pod : PodState
demo_pod = record {
  namespace = "cloudward-staging";
  name = "checkout-1";
  ready = false;
  labels = demo_labels;
  controller_managed = true;
  controller_kind = some "ReplicaSet";
  restart_count = 4;
}

abbrev demo_deployment : ApiDeployment
demo_deployment = record {
  replicas = 3;
  ready_replicas = 2;
  images = "checkout:1" ∷ [];
  template_labels = demo_labels;
}

abbrev demo_policy : PolicyResult
demo_policy = record {
  allowed = true;
  requires_approval = false;
  reason = "allowed";
  error_code = none;
}

-- Every reply is the same; the world is a clock that each reading moves on.
abbrev pub demo : Platform
demo = record {
  floats = whole_floats;
  World = ℕ;
  now = λ w. (w, w + 1);
  monotonic = λ w. (w, w + 1);
  sleep = λ d w. w + d;
  read_deployment = λ _ _ w. (answered demo_deployment, w);
  list_pods = λ _ _ w. (answered (demo_pod ∷ []), w);
  read_pod = λ _ _ w. (answered demo_pod, w);
  remove_pod = λ _ _ w. (answered tt, w);
  patch_scale = λ _ _ _ w. (answered tt, w);
  proxy_health = λ _ _ _ w. (answered (object_payload "ok"), w);
  post_policy = λ _ w. (decided demo_policy, w);
  digest = λ (c : ApprovalContext). c.proposal_id * 100 + c.risk_score;
  action_key = λ incident_id _ _ attempt _. incident_id * 10 + attempt;
  rollback_key = λ execution_id replicas. 1000 + execution_id * 10 + replicas;
  is_dns_label = λ _. true;
  is_safe_selector = λ _. true;
  ends_with_tag = λ _ _. true;
  strip_slashes = λ path. path;
  is_health_path = λ _. true;
}

abbrev pub demo_settings : Settings
demo_settings = record {
  app_env_is_test = false;
  approval_ttl_seconds = 900;
  max_remediation_attempts = 3;
  max_temporary_replicas = 5;
  automatic_rollback_max_risk = 30;
  allowed_namespaces = "cloudward-staging" ∷ [];
  local_gitops_write_enabled = false;
  verification_timeout = 120_000;
  verification_poll = 2_000;
}

abbrev pub boss : Principal
boss = record { user_id = 1; login = "boss"; role = admin; persisted = true }

abbrev pub incident_in : IncidentState → Incident
incident_in state = record {
  id = 7;
  correlation_id = "corr";
  cluster_id = none;
  service_id = none;
  incident_type = "UnhealthyPod";
  title = "Checkout pod is unhealthy";
  summary = none;
  environment = staging;
  state = state;
  severity = "warning";
  risk_score = some 40;
  retry_count = 0;
  runbook_id = some "unhealthy-pod";
  runbook_version = some 1;
  resolved_at = none;
  resolution_source = none;
}

abbrev pub demo_parameters : Parameters
demo_parameters = record {
  namespace = some "cloudward-staging";
  deployment = none;
  pod_name = some "checkout-1";
  pod = none;
  target_count = some 1;
  observed_replicas = none;
  expected_current_tag = none;
  diagnosis_id = none;
}

abbrev pub demo_factors : RiskFactors
demo_factors = record {
  environment = 4;
  blast_radius = 3;
  destructiveness = 3;
  reversibility = 2;
  uncertainty = 0;
  sensitivity = 2;
}

abbrev pub proposal_of : ℕ → ActionProposal
proposal_of risk_score = record {
  id = 11;
  incident_id = 7;
  action_type = delete_unhealthy_pod;
  parameters = demo_parameters;
  status = pending;
  risk_score = risk_score;
  risk_calculation = record { factors = some demo_factors; confidence = none };
  proposed_by = "cloudward";
}

abbrev pub approval_of : ApprovalDecision → ℕ → Approval
approval_of decision risk_score = record {
  id = 21;
  incident_id = 7;
  proposal_id = 11;
  actor_id = none;
  decision = decision;
  reason = none;
  action = delete_unhealthy_pod;
  environment = staging;
  risk_score = risk_score;
  blast_radius = 1;
  reversible = true;
  requested_by = "cloudward";
  runbook = some "unhealthy-pod";
  proposal_version = 1;
  expected_state = context (incident_in awaiting_approval) (proposal_of risk_score) 1;
  context_digest = 1100 + risk_score;
  expires_at = 1000;
  decided_at = none;
  decided_by = none;
  decision_comment = none;
  invalidated_reason = none;
  execution_claimed_at = none;
  execution_reference = none;
}

abbrev pub demo_decision : PolicyDecision
demo_decision = record {
  incident_id = 7;
  proposal_id = 11;
  allowed = true;
  requires_approval = true;
}

-- The rows of an incident in the given state, whose proposal has the given score and approval.
abbrev pub rows_in : IncidentState → ApprovalDecision → ℕ → Case
rows_in state decision risk_score = record {
  incident = incident_in state;
  timeline = [];
  stream = [];
  audit = [];
  proposals = proposal_of risk_score ∷ [];
  approvals = approval_of decision risk_score ∷ [];
  decisions = demo_decision ∷ [];
  executions = [];
  snapshots = [];
  runbook_executions = [];
  verifications = [];
  notifications = [];
  memories = [];
  next_id = 31;
}

abbrev pub session_on : Case → Session demo
session_on rows = record {
  live = rows;
  committed = rows;
  world = 5;
  calls = [];
  opened = 1;
  closed = 0;
}

abbrev pub waiting : ℕ → Session demo
waiting risk_score = session_on (rows_in awaiting_approval undecided risk_score)

abbrev pub granted : Session demo
granted = session_on (rows_in awaiting_approval approved 40)
