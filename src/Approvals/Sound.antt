-- ===== src/Approvals/Sound.antt =====
-- When `ApprovalService.decide` grants an approval, and when it cannot.
use cloud_ward.Prelude.{
  ◌≡◌, ◌<◌, refl, true, false, Option, none, some, arith, find, List, [], ◌==◌, ◌∷◌,
}
use cloud_ward.Errors.{Result, ok, err}
use cloud_ward.Incidents.Machine.{awaiting_approval}
use cloud_ward.Rbac.{Principal}
use cloud_ward.Store.Records.{
  Approval, ActionProposal, PolicyDecision, pending, Environment, environment_value,
}
use cloud_ward.Platform.{Platform}
use cloud_ward.Exec.{Session, continue, Call, evaluated, deleted_pod, scaled, outside}
use cloud_ward.Kubernetes.Executor.{get_deployment, get_pods, get_pod_health}
use cloud_ward.Risk.Engine.{RiskFactors}
use cloud_ward.Approvals.Request.{context}
use cloud_ward.Approvals.Stale.{
  LiveTarget, live_target, target_reason, factor_gate, valid_factors, policy_gate, stale_reason,
  outside_reason, has_execution, needs_approval,
}

-- What the gates of `_stale_reason` on the rows have seen, when none of them found a reason.
pub record IsFresh {P : Platform} (approval : Approval) (proposal : ActionProposal) (s : Session P)
    : Type 0 where
  pub not_expired : (P.now s.world).0 < approval.expires_at
  pub incident_waits : s.live.incident.state ≡ awaiting_approval
  pub proposal_waits : proposal.status ≡ pending
  pub not_executed : has_execution proposal s.live.executions ≡ false
  pub context_bound :
      P.digest (context s.live.incident proposal approval.proposal_version)
      ≡ approval.context_digest

-- The last call of the outside is an answer of OPA that allows the proposal: it was asked for the
-- proposal's action and risk score in the incident's environment, as approved by the principal with
-- this approval.
abbrev pub IsLastAllowed :
    {P : Platform} → Approval → ActionProposal → Principal → Environment → List (Call P) → Type 0
IsLastAllowed approval proposal principal environment [] = ⊥
IsLastAllowed approval proposal principal environment (evaluated input result ∷ older) =
    (result.allowed ≡ true)
    × (input.action ≡ proposal.action_type)
    × (input.risk_score ≡ proposal.risk_score)
    × (input.environment ≡ environment_value environment)
    × (input.approval.approved ≡ true)
    × (input.approval.approval_id ≡ some approval.id)
    × (input.approval.approved_by ≡ some principal.login)
IsLastAllowed approval proposal principal environment (deleted_pod _ _ ∷ older) = ⊥
IsLastAllowed approval proposal principal environment (scaled _ _ _ ∷ older) = ⊥

live_target-keeps :
    {P : Platform} (proposal : ActionProposal) (s : Session P)
    → let t = (live_target proposal s).1 in
      (t.live ≡ s.live) × (t.committed ≡ s.committed) × (t.calls ≡ s.calls)
unfolding live_target get_deployment get_pods get_pod_health outside
live_target-keeps proposal s = ground arith

policy_gate-lem :
    {P : Platform} (approval : Approval) (proposal : ActionProposal) (principal : Principal)
    (target : LiveTarget) (factors : RiskFactors) (s : Session P)
    → let r = policy_gate approval proposal principal target factors s in
      (r.1.live ≡ s.live)
      × (r.0 ≡ ok none
          → IsLastAllowed approval proposal principal s.live.incident.environment r.1.calls)
unfolding policy_gate outside
policy_gate-lem approval proposal principal target factors s = ground arith

factor_gate-lem :
    {P : Platform} (approval : Approval) (proposal : ActionProposal) (principal : Principal)
    (target : LiveTarget) (factors : Option RiskFactors) (s : Session P)
    → let r = factor_gate approval proposal principal target factors s in
      (r.1.live ≡ s.live)
      × (r.0 ≡ ok none
          → IsLastAllowed approval proposal principal s.live.incident.environment r.1.calls)
factor_gate-lem approval proposal principal target none s = (refl, λ h. cc)
factor_gate-lem approval proposal principal target (some factors) s =
    policy_gate-lem approval proposal principal target factors s

-- The facts that the outside has confirmed when it gave no reason.
abbrev pub IsConfirmed :
    {P : Platform} → Approval → ActionProposal → Principal → Session P → Session P → Type 0
IsConfirmed approval proposal principal s t =
    (needs_approval (find (λ (d : PolicyDecision). d.proposal_id == proposal.id) s.live.decisions)
      ≡ true)
    × IsLastAllowed approval proposal principal s.live.incident.environment t.calls
    × (t.live ≡ s.live)

target_reason-lem :
    {P : Platform} (approval : Approval) (proposal : ActionProposal) (principal : Principal)
    (target : LiveTarget) (s : Session P)
    → let r = target_reason approval proposal principal target s in
      (r.1.live ≡ s.live) × (r.0 ≡ ok none → IsConfirmed approval proposal principal s r.1)
unfolding target_reason
target_reason-lem approval proposal principal target s = ground (
  arith,
  factor_gate-lem approval proposal principal target
      (valid_factors proposal.risk_calculation.factors) s,
)

after_target :
    {P : Platform} (approval : Approval) (proposal : ActionProposal) (principal : Principal)
    (s : Session P) (r : Result LiveTarget × Session P)
    → r.1.live ≡ s.live
    → let q = continue r (target_reason approval proposal principal) in
      (q.1.live ≡ s.live) × (q.0 ≡ ok none → IsConfirmed approval proposal principal s q.1)
after_target approval proposal principal s (ok target, t) e =
    ground (arith, target_reason-lem approval proposal principal target t)
after_target approval proposal principal s (err x, t) e = (e, λ h. cc)

outside_reason-lem :
    {P : Platform} (approval : Approval) (proposal : ActionProposal) (principal : Principal)
    (s : Session P)
    → let r = outside_reason approval proposal principal s in
      (r.1.live ≡ s.live) × (r.0 ≡ ok none → IsConfirmed approval proposal principal s r.1)
unfolding outside_reason
outside_reason-lem approval proposal principal s =
    after_target approval proposal principal s (live_target proposal s)
      (live_target-keeps proposal s).0

-- What holds of a proposal for which `_stale_reason` finds no reason; it touches no row.
pub stale_reason-lem :
    {P : Platform} (approval : Approval) (proposal : ActionProposal) (principal : Principal)
    (s : Session P)
    → let r = stale_reason approval proposal principal s in
      (r.1.live ≡ s.live)
      × (r.0 ≡ ok none
          → IsFresh approval proposal s × IsConfirmed approval proposal principal s r.1)
unfolding stale_reason outside
stale_reason-lem {P} approval proposal principal s =
    ground (
      arith,
      outside_reason-lem approval proposal principal (record s { world = (P.now s.world).1 }),
    )
