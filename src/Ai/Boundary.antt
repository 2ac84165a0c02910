-- ===== src/Ai/Boundary.antt =====
-- backend/app/ai/action_boundary.py: how a model's suggestion becomes a governed proposal. Nothing
-- here calls the executor.
use cloud_ward.Prelude.{
  ℕ, zero, suc, ◌==◌, ◌&&◌, ◌||◌, String, Bool, false, Option, none, some, List, [], ◌∷◌, str_eq,
  has_text, find, keep, if◌then◌else◌,
}
use cloud_ward.Errors.{ai_diagnosis_unavailable, ai_action_not_suggested, action_environment_denied}
use cloud_ward.Actions.Registry.{
  ActionType, ActionMetadata, action_value, typed, get_action_metadata,
}
use cloud_ward.Risk.Floats.{Floats}
use cloud_ward.Risk.Engine.{Sensitivity, RiskContext, RiskResult, calculate}
use cloud_ward.Store.Records.{
  environment_value, ActionProposal, PolicyDecision, RecordStatus, pending, rejected, user,
}
use cloud_ward.Store.Case.{Case, append_stream_event}
use cloud_ward.Platform.{Platform, PolicyInput, PolicyResult}
use cloud_ward.Policy.{checked_input, evaluate}
use cloud_ward.Exec.{Exec, pure, lift, rows, on_rows, ◌>>=◌, ◌>>◌}
use cloud_ward.Kubernetes.Executor.{cloud_error, ensure}
use cloud_ward.Remediation.Plan.{add_proposal, or_invalid}
use cloud_ward.Ai.Labels.{bounded_labels}

-- `AIDiagnosisRecord`, as far as it is read here.
pub record AiDiagnosis (F : Floats) : Type 0 where
  pub id : ℕ
  pub status : String
  pub confidence : Option F.Float
  pub action_candidates : List String

-- `AIActionEvaluationRequest`
pub record AiActionRequest : Type 0 where
  pub action : ActionType
  pub target_count : ℕ
  pub namespace : Option String
  pub resource_name : Option String
  pub labels : List (String × String)
  pub controller_managed : Bool
  pub sensitivity : Sensitivity

-- The row of the incident's service.
pub record ServiceRow : Type 0 where
  pub namespace : String
  pub deployment_name : String
  pub labels : List (String × String)
  pub criticality : String

pub record AiActionGateResult (F : Floats) : Type 0 where
  pub diagnosis : AiDiagnosis F
  pub proposal : ActionProposal
  pub decision : PolicyDecision

-- `diagnosis is None or diagnosis.status != "AVAILABLE"`
abbrev pub available : {P : Platform} → List (AiDiagnosis P.floats) → Exec P (AiDiagnosis P.floats)
available [] = cloud_error ai_diagnosis_unavailable 409
available {P} (d ∷ older) = do
  ensure (str_eq d.status "AVAILABLE") ai_diagnosis_unavailable 409
  pure d

-- A proposal of an earlier evaluation: its action, its author and its diagnosis.
unfoldable pub is_advised : ℕ → ActionProposal → Bool
is_advised diagnosis_id p = elim p.parameters.diagnosis_id [
  | none ↦ false
  | some d ↦ d == diagnosis_id
]

unfoldable pub is_advisory : ActionType → ActionProposal → Bool
is_advisory action p =
    str_eq (action_value p.action_type) (action_value action)
    && str_eq p.proposed_by "cloudward-ai-advisory"

-- `.limit(n)`
unfoldable pub limit {ℓ} : {A : Type ℓ} → ℕ → List A → List A
limit zero xs = []
limit (suc n) [] = []
limit (suc n) (x ∷ xs) = x ∷ limit n xs

abbrev pub with_decision :
    ActionProposal
    → Option PolicyDecision
    → Option (ActionProposal × PolicyDecision)
    → Option (ActionProposal × PolicyDecision)
with_decision p none later = later
with_decision p (some d) later = some (p, d)

-- The loop of `_existing_gate_result`.
unfoldable pub first_decided :
    ℕ → List PolicyDecision → List ActionProposal → Option (ActionProposal × PolicyDecision)
first_decided diagnosis_id decisions [] = none
first_decided diagnosis_id decisions (p ∷ ps) =
    let later = first_decided diagnosis_id decisions ps in
    if is_advised diagnosis_id p
    then with_decision p (find (λ d. d.proposal_id == p.id) decisions) later
    else later

-- `_existing_gate_result`
unfoldable pub existing_gate_result :
    ℕ → ActionType → Case → Option (ActionProposal × PolicyDecision)
existing_gate_result diagnosis_id action c =
    first_decided diagnosis_id c.decisions (limit 20 (keep (is_advisory action) c.proposals))

abbrev pub service_namespace : Option ServiceRow → String
service_namespace none = "default"
service_namespace (some s) = s.namespace

abbrev pub service_deployment : Option ServiceRow → String
service_deployment none = "unspecified"
service_deployment (some s) = s.deployment_name

abbrev pub service_labels : Option ServiceRow → List (String × String)
service_labels none = []
service_labels (some s) = s.labels

abbrev pub service_criticality : Option ServiceRow → String
service_criticality none = "unknown"
service_criticality (some s) = s.criticality

-- `value or default`, for a text of the request that is not empty when it is given.
abbrev pub text_or : Option String → String → String
text_or none default = default
text_or (some text) default = text

abbrev pub labels_or : List (String × String) → List (String × String) → List (String × String)
labels_or [] default = default
labels_or (l ∷ ls) default = l ∷ ls

abbrev pub confidence_of : (F : Floats) → AiDiagnosis F → F.Float
confidence_of F diagnosis = elim diagnosis.confidence [ none ↦ F.hundredths 0 | some c ↦ c ]

abbrev pub advice_context :
    (F : Floats) → AiDiagnosis F → AiActionRequest → String → Bool → RiskContext F
advice_context F diagnosis request environment reversible = record {
  environment = environment;
  action = request.action;
  target_count = request.target_count;
  reversible = some reversible;
  confidence = confidence_of F diagnosis;
  sensitivity = request.sensitivity;
  destructive_override = false;
}

-- The input of the policy, with the facts of the request before those of the service.
unfoldable pub advice_input :
    (F : Floats)
    → AiDiagnosis F
    → AiActionRequest
    → Option ServiceRow
    → String
    → Bool
    → RiskResult
    → PolicyInput F
advice_input F diagnosis request service environment reversible risk = record {
  environment = environment;
  action = request.action;
  risk_score = risk.score;
  risk_factors = risk.factors;
  confidence = confidence_of F diagnosis;
  blast_radius = request.target_count;
  reversible = reversible;
  service_criticality = service_criticality service;
  target = record {
    namespace = text_or request.namespace (service_namespace service);
    pod_name = text_or request.resource_name (service_deployment service);
    labels = bounded_labels (labels_or request.labels (service_labels service));
    controller_managed = request.controller_managed;
    target_pods = request.target_count;
  };
  approval = record { approved = false; approval_id = none; approved_by = none };
}

-- The status of a proposal under a policy's answer.
abbrev pub advice_status : PolicyResult → RecordStatus
advice_status policy = if policy.allowed || policy.requires_approval then pending else rejected

-- The row of the proposal. Of its parameters, only the diagnosis is read by some code; the target
-- stands one level deeper. The redaction leaves an identifier as it is.
unfoldable pub advised_proposal :
    ℕ → ℕ → ℕ → ActionType → RiskResult → PolicyResult → ActionProposal
advised_proposal id incident_id diagnosis_id action risk policy = record {
  id = id;
  incident_id = incident_id;
  action_type = action;
  parameters = record {
    namespace = none;
    deployment = none;
    pod_name = none;
    pod = none;
    target_count = none;
    observed_replicas = none;
    expected_current_tag = none;
    diagnosis_id = some diagnosis_id;
  };
  status = advice_status policy;
  risk_score = risk.score;
  risk_calculation = record { factors = some risk.factors; confidence = none };
  proposed_by = "cloudward-ai-advisory";
}

abbrev pub advised_decision : ℕ → ℕ → PolicyResult → PolicyDecision
advised_decision incident_id proposal_id policy = record {
  incident_id = incident_id;
  proposal_id = proposal_id;
  allowed = policy.allowed;
  requires_approval = policy.requires_approval;
}

-- `record_audit`, for the user who asked.
unfoldable pub user_audit : String → ℕ → ActionType → ℕ → Bool → Case → Case
user_audit actor actor_id action risk_score allowed c = record c {
  audit =
      record {
        event_type = "AI_ACTION_CANDIDATE_GATED";
        incident_id = c.incident.id;
        actor = actor;
        actor_type = user;
        actor_id = some actor_id;
        action = some action;
        risk_score = some risk_score;
        policy_decision = some (if allowed then "ALLOW" else "DENY");
        result = "SUCCEEDED";
      }
      ∷ c.audit;
}

-- The service of the incident, if it has one.
abbrev pub service_of : (ℕ → Option ServiceRow) → Option ℕ → Option ServiceRow
service_of services none = none
service_of services (some id) = services id

module _ {P : Platform} where
  -- The rows that an evaluation leaves.
  unfoldable pub record_advice :
      AiDiagnosis P.floats
      → AiActionRequest
      → String
      → ℕ
      → RiskResult
      → PolicyResult
      → Exec P (AiActionGateResult P.floats)
  unfolding add_proposal append_stream_event
  record_advice diagnosis request actor actor_id risk policy = do
    c ← rows
    let proposal = advised_proposal c.next_id c.incident.id diagnosis.id request.action risk policy
    on_rows (add_proposal proposal)
    let decision = advised_decision c.incident.id proposal.id policy
    on_rows (λ c. record c { decisions = decision ∷ c.decisions })
    on_rows (user_audit actor actor_id request.action risk.score policy.allowed)
    on_rows (append_stream_event "incident.ai_action_evaluated")
    let gated : AiActionGateResult P.floats = record {
      diagnosis = diagnosis;
      proposal = proposal;
      decision = decision;
    }
    pure gated

module _ {P : Platform} (services : ℕ → Option ServiceRow) where
  -- A new evaluation: the risk, the policy's answer and the rows.
  unfoldable pub gate_candidate :
      AiDiagnosis P.floats
      → AiActionRequest
      → ActionMetadata
      → String
      → ℕ
      → Exec P (AiActionGateResult P.floats)
  gate_candidate diagnosis request metadata actor actor_id = do
    c ← rows
    let environment = environment_value c.incident.environment
    let service = service_of services c.incident.service_id
    risk ← or_invalid (
        calculate P.floats
          (advice_context P.floats diagnosis request environment metadata.reversible))
    input ←
        checked_input
          (advice_input P.floats diagnosis request service environment metadata.reversible risk)
    policy ← evaluate input
    record_advice diagnosis request actor actor_id risk policy

  -- An earlier evaluation is returned as it is.
  abbrev pub gate_or_existing :
      AiDiagnosis P.floats
      → AiActionRequest
      → ActionMetadata
      → String
      → ℕ
      → Option (ActionProposal × PolicyDecision)
      → Exec P (AiActionGateResult P.floats)
  gate_or_existing diagnosis request metadata actor actor_id none =
      gate_candidate diagnosis request metadata actor actor_id
  gate_or_existing diagnosis request metadata actor actor_id (some found) =
      pure (record { diagnosis = diagnosis; proposal = found.0; decision = found.1 })

  -- `evaluate_ai_action_candidate`; the diagnoses of the incident come with the newest first.
  unfoldable pub evaluate_ai_action_candidate :
      List (AiDiagnosis P.floats)
      → AiActionRequest
      → String
      → ℕ
      → Exec P (AiActionGateResult P.floats)
  evaluate_ai_action_candidate diagnoses request actor actor_id = do
    diagnosis ← available diagnoses
    ensure (has_text (action_value request.action) diagnosis.action_candidates)
        ai_action_not_suggested 422
    metadata ← lift (get_action_metadata (typed request.action))
    c ← rows
    ensure (has_text (environment_value c.incident.environment) metadata.allowed_environments)
        action_environment_denied 403
    gate_or_existing diagnosis request metadata actor actor_id
        (existing_gate_result diagnosis.id request.action c)
