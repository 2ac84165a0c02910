-- ===== src/Approvals/Stale.antt =====
-- backend/app/approvals/service.py: `_live_target` and `_stale_reason`, which look at the rows, the
-- live target and the policy again before a proposal is approved.
use cloud_ward.Prelude.{
  ℕ, String, Bool, true, false, not, Option, none, some, List, [], ◌∷◌, ◌==◌, leb, max, any, find,
  str_eq, if◌then◌else◌,
}
use cloud_ward.Incidents.Machine.{awaiting_approval, same_state}
use cloud_ward.Store.Records.{
  ActionProposal, Approval, PolicyDecision, ActionExecution, RecordStatus, pending,
  environment_value, InvalidReason, approval_expired, already_executed, context_changed,
  approval_not_required, invalid_risk_factors, policy_denies, incident_moved, proposal_moved,
  target_stale, TargetReason, no_namespace, replicas_changed, image_changed, no_live_pods,
  no_workload, Parameters,
}
use cloud_ward.Rbac.{Principal}
use cloud_ward.Risk.Engine.{RiskFactors, factors_in_range}
use cloud_ward.Platform.{Platform, PodState}
use cloud_ward.Exec.{Exec, pure, rows, utc_now, ◌>>=◌}
use cloud_ward.Kubernetes.Executor.{get_deployment, get_pods, get_pod_health}
use cloud_ward.Policy.{checked_input, evaluate}
use cloud_ward.Approvals.Request.{context}

-- The dictionary that `_live_target` returns; `stale` is its key `stale_reason`.
pub record LiveTarget : Type 0 where
  pub namespace : String
  pub name : String
  pub labels : List (String × String)
  pub controller_managed : Bool
  pub stale : Option TargetReason

abbrev stale_target : String → String → Bool → TargetReason → LiveTarget
stale_target namespace name managed reason = record {
  namespace = namespace;
  name = name;
  labels = [];
  controller_managed = managed;
  stale = some reason;
}

abbrev pod_target : String → PodState → LiveTarget
pod_target namespace pod = record {
  namespace = namespace;
  name = pod.name;
  labels = pod.labels;
  controller_managed = pod.controller_managed;
  stale = none;
}

-- The first pod that is listed, if there is one.
abbrev first_pod_target : String → String → List PodState → LiveTarget
first_pod_target namespace name [] = stale_target namespace name true no_live_pods
first_pod_target namespace name (pod ∷ _) = pod_target namespace pod

abbrev pub differs : Option ℕ → ℕ → Bool
differs none n = false
differs (some m) n = not (n == m)

-- `parameters.get("pod_name") or parameters.get("pod")`
abbrev pub pod_parameter : Option String → Option String → Option String
pod_parameter none pod = pod
pod_parameter (some name) pod = if str_eq name "" then pod else some name

-- `isinstance(expected_tag, str)` and no image ends with the tag.
abbrev tag_gone : (String → String → Bool) → Option String → List String → Bool
tag_gone ends_with none images = false
tag_gone ends_with (some tag) images = not (any (λ image. ends_with image tag) images)

-- The tests of `_stale_reason` on rows.
abbrev pub is_pending : RecordStatus → Bool
is_pending pending = true
is_pending _ = false

abbrev pub needs_approval : Option PolicyDecision → Bool
needs_approval none = false
needs_approval (some d) = d.requires_approval

abbrev pub has_execution : ActionProposal → List ActionExecution → Bool
has_execution proposal executions =
    any (λ (x : ActionExecution). x.proposal_id == proposal.id) executions

abbrev hundredths_or_one : Option ℕ → ℕ
hundredths_or_one none = 100
hundredths_or_one (some n) = n

-- `RiskFactors.model_validate(…)`: `none` is the caught KeyError or ValueError.
abbrev pub valid_factors : Option RiskFactors → Option RiskFactors
valid_factors none = none
valid_factors (some f) = if factors_in_range f then some f else none

module _ {P : Platform} where
  unfoldable pub deployment_target : Parameters → String → String → Exec P LiveTarget
  deployment_target parameters namespace name = do
    deployment ← get_deployment namespace name
    if differs parameters.observed_replicas deployment.desired_replicas
        then pure (stale_target namespace name true replicas_changed)
        else if tag_gone P.ends_with_tag parameters.expected_current_tag deployment.container_images
        then pure (stale_target namespace name true image_changed)
        else do
          pods ← get_pods namespace "cloudward.io/demo-target=true"
          pure (first_pod_target namespace name pods)

  abbrev named_pod_target : String → Option String → Exec P LiveTarget
  named_pod_target namespace none = pure (stale_target namespace "unknown" false no_workload)
  named_pod_target namespace (some name) = do
    pod ← get_pod_health namespace name
    pure (pod_target namespace pod)

  abbrev bound_target : Parameters → Option String → Exec P LiveTarget
  bound_target parameters none = pure (stale_target "unknown" "unknown" false no_namespace)
  bound_target parameters (some namespace) = elim parameters.deployment [
    | some name ↦ deployment_target parameters namespace name
    | none ↦ named_pod_target namespace (pod_parameter parameters.pod_name parameters.pod)
  ]

  unfoldable pub live_target : ActionProposal → Exec P LiveTarget
  unfolding deployment_target
  live_target proposal = bound_target proposal.parameters proposal.parameters.namespace

  -- An early return with a reason.
  abbrev pub stale_if :
      Bool → InvalidReason → Exec P (Option InvalidReason) → Exec P (Option InvalidReason)
  stale_if test reason rest = if test then pure (some reason) else rest

  -- The last gate: the policy is asked again, as if the approval were given.
  unfoldable pub policy_gate :
      Approval
      → ActionProposal
      → Principal
      → LiveTarget
      → RiskFactors
      → Exec P (Option InvalidReason)
  unfolding evaluate checked_input
  policy_gate approval proposal principal target factors = do
    c ← rows
    input ← checked_input (record {
      environment = environment_value c.incident.environment;
      action = proposal.action_type;
      risk_score = proposal.risk_score;
      risk_factors = factors;
      confidence = P.floats.hundredths (hundredths_or_one proposal.risk_calculation.confidence);
      blast_radius = max 1 approval.blast_radius;
      reversible = approval.reversible;
      service_criticality = "low";
      target = record {
        namespace = target.namespace;
        pod_name = target.name;
        labels = target.labels;
        controller_managed = target.controller_managed;
        target_pods = max 1 approval.blast_radius;
      };
      approval = record {
        approved = true;
        approval_id = some approval.id;
        approved_by = some principal.login;
      };
    })
    policy ← evaluate input
    pure (if policy.allowed then none else some policy_denies)

  abbrev pub factor_gate :
      Approval
      → ActionProposal
      → Principal
      → LiveTarget
      → Option RiskFactors
      → Exec P (Option InvalidReason)
  factor_gate approval proposal principal target none = pure (some invalid_risk_factors)
  factor_gate approval proposal principal target (some factors) =
      policy_gate approval proposal principal target factors

  abbrev target_gate : LiveTarget → Exec P (Option InvalidReason) → Exec P (Option InvalidReason)
  target_gate target rest = elim target.stale [
    | some r ↦ pure (some (target_stale r))
    | none ↦ rest
  ]

  -- The gates once the live target is known.
  unfoldable pub target_reason :
      Approval → ActionProposal → Principal → LiveTarget → Exec P (Option InvalidReason)
  target_reason approval proposal principal target = do
    c ← rows
    target_gate target (
        stale_if
          (not (
            needs_approval
              (find (λ (d : PolicyDecision). d.proposal_id == proposal.id) c.decisions)))
          approval_not_required
          (factor_gate approval proposal principal target
            (valid_factors proposal.risk_calculation.factors)))

  -- The live target, the latest policy decision and the policy itself.
  unfoldable pub outside_reason :
      Approval → ActionProposal → Principal → Exec P (Option InvalidReason)
  outside_reason approval proposal principal = do
    target ← live_target proposal
    target_reason approval proposal principal target

  -- `_stale_reason`
  unfoldable pub stale_reason :
      Approval → ActionProposal → Principal → Exec P (Option InvalidReason)
  stale_reason approval proposal principal = do
    time ← utc_now
    c ← rows
    stale_if (leb approval.expires_at time) approval_expired (
        stale_if (not (same_state c.incident.state awaiting_approval))
          (incident_moved c.incident.state)
          (stale_if (not (is_pending proposal.status)) (proposal_moved proposal.status) (
            stale_if (has_execution proposal c.executions) already_executed (
              stale_if
                (not (
                  P.digest (context c.incident proposal approval.proposal_version)
                  == approval.context_digest))
                context_changed (outside_reason approval proposal principal)))))
