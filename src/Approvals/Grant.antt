-- ===== src/Approvals/Grant.antt =====
-- What `ApprovalService.decide` has checked when it grants an approval, and what it leaves behind.
use cloud_ward.Prelude.{
  ℕ, ◌≡◌, ◌≢◌, ◌<◌, refl, ap, ◌∙◌, String, true, Option, none, some, arith, find, ◌==◌,
  update_where,
}
use cloud_ward.Errors.{Result, ok, err}
use cloud_ward.Incidents.Machine.{awaiting_approval, policy_evaluation, transition_incident}
use cloud_ward.Incidents.Service.{change_incident_state, apply_change}
use cloud_ward.Rbac.{Principal, has_permission}
use cloud_ward.Actions.Registry.{action_registry}
use cloud_ward.Store.Records.{
  Approval, ActionProposal, ApprovalDecision, approved, refused, undecided, InvalidReason,
  PolicyDecision,
}
use cloud_ward.Store.Case.{Case}
use cloud_ward.Settings.{Settings}
use cloud_ward.Platform.{Platform}
use cloud_ward.Exec.{Session, outside, continue}
use cloud_ward.Approvals.Stale.{stale_reason, needs_approval}
use cloud_ward.Approvals.Sound.{IsFresh, IsConfirmed, IsLastAllowed, stale_reason-lem}
use cloud_ward.Approvals.Decide.{
  bound_proposal, decide, approve, settle, invalidate_stale, grant_approval, reject_approval,
  with_verdict,
}

grant_approval-lem :
    {P : Platform} (settings : Settings) (approval : Approval) (proposal : ActionProposal)
    (principal : Principal) (comment : Option String) (s : Session P)
    → s.live.incident.state ≡ awaiting_approval
    → let r = grant_approval settings approval proposal principal comment s in
      let after = with_verdict approved principal comment (P.now s.world).0 approval in
      (r.0 ≡ ok after)
      × (r.1.live.incident.state ≡ policy_evaluation)
      × (r.1.calls ≡ s.calls)
      × (r.1.live.approvals
          ≡ update_where (λ (a : Approval). a.id == approval.id) (λ _. after) s.live.approvals)
unfolding grant_approval change_incident_state apply_change transition_incident outside
grant_approval-lem settings approval proposal principal comment s h = ground arith

-- An invalidated approval is recorded as EXPIRED or INVALIDATED, never as granted.
invalidate_stale-decision :
    {P : Platform} (settings : Settings) (approval a : Approval) (proposal : ActionProposal)
    (principal : Principal) (reason : InvalidReason) (s : Session P)
    → (invalidate_stale settings approval proposal principal reason s).0 ≡ ok a
    → a.decision ≢ approved
unfolding invalidate_stale outside
invalidate_stale-decision settings approval a proposal principal reason s h = ground arith

-- What has been checked of a granted proposal, and where its incident and approval are afterwards.
pub record IsGranted {P : Platform} (approval a : Approval) (proposal : ActionProposal)
    (principal : Principal) (s t : Session P) : Type 0 where
  pub verdict : a.decision ≡ approved
  pub permitted :
      has_permission principal.role (action_registry proposal.action_type).required_permission
      ≡ true
  pub not_high_risk : proposal.risk_score < 70
  pub fresh : IsFresh approval proposal s
  pub confirmed_need :
      needs_approval (find (λ (d : PolicyDecision). d.proposal_id == proposal.id) s.live.decisions)
      ≡ true
  pub policy_allows : IsLastAllowed approval proposal principal s.live.incident.environment t.calls
  pub goes_on : t.live.incident.state ≡ policy_evaluation
  pub stored :
      t.live.approvals
      ≡ update_where (λ (r : Approval). r.id == approval.id) (λ _. a) s.live.approvals

after_reason :
    {P : Platform} (settings : Settings) (approval : Approval) (proposal : ActionProposal)
    (principal : Principal) (comment : Option String) (s : Session P)
    (q : Result (Option InvalidReason) × Session P)
    → (q.1.live ≡ s.live)
    → (q.0 ≡ ok none → IsFresh approval proposal s × IsConfirmed approval proposal principal s q.1)
    → (a : Approval)
    → let r = continue q (settle settings approval proposal principal comment) in
      r.0 ≡ ok a
      → a.decision ≡ approved
      → IsFresh approval proposal s
        × IsConfirmed approval proposal principal s q.1
        × (r.1.live.incident.state ≡ policy_evaluation)
        × IsLastAllowed approval proposal principal s.live.incident.environment r.1.calls
        × (r.1.live.approvals
            ≡ update_where (λ (x : Approval). x.id == approval.id) (λ _. a) s.live.approvals)
after_reason settings approval proposal principal comment s (err e, t) same facts a h d = cc
after_reason settings approval proposal principal comment s (ok (some reason), t) same facts a h d =
    absurd (invalidate_stale-decision settings approval a proposal principal reason t h d)
after_reason settings approval proposal principal comment s (ok none, t) same facts a h d =
    let (fresh, confirmed) = facts refl in
    ground (
      arith,
      grant_approval-lem settings approval proposal principal comment t
          (ap (λ (c : Case). c.incident.state) same ∙ fresh.incident_waits),
    )

approve-IsGranted :
    {P : Platform} (settings : Settings) (approval a : Approval) (proposal : ActionProposal)
    (principal : Principal) (comment : Option String) (s : Session P)
    → let r = approve settings approval proposal principal comment s in
      r.0 ≡ ok a → a.decision ≡ approved → IsGranted approval a proposal principal s r.1
unfolding approve
approve-IsGranted settings approval a proposal principal comment s h d =
    let (same, facts) = stale_reason-lem approval proposal principal s in
    ground (
      arith,
      after_reason settings approval proposal principal comment s
          (stale_reason approval proposal principal s) same facts a,
    )

reject_approval-decision :
    {P : Platform} (settings : Settings) (approval a : Approval) (proposal : ActionProposal)
    (principal : Principal) (comment : Option String) (s : Session P)
    → (reject_approval settings approval proposal principal comment s).0 ≡ ok a
    → a.decision ≢ approved
unfolding reject_approval outside
reject_approval-decision settings approval a proposal principal comment s h = ground arith

-- A decision that ends in an approved row was asked to approve an undecided approval, and the
-- principal's role has the permission of the action, the risk score is below 70, the approval has
-- not expired, the incident waits for it, the proposal is pending and has no execution, the bound
-- context has its digest, the latest policy decision asks for an approval, and the last call of the
-- outside is an answer of OPA that allows the proposal: it was asked for the proposal's action and
-- risk score in the incident's environment, with this approval as given by this principal. The
-- incident goes on to POLICY_EVALUATION, and the stored approval is the
-- approved one.
pub decide-IsGranted :
    {P : Platform} (settings : Settings) (approval_id : ℕ) (decision : ApprovalDecision)
    (principal : Principal) (comment : Option String) (s : Session P) (approval a : Approval)
    (proposal : ActionProposal)
    → find (λ (x : Approval). x.id == approval_id) s.live.approvals ≡ some approval
    → bound_proposal approval s.live ≡ some proposal
    → let r = decide settings approval_id decision principal comment s in
      r.0 ≡ ok a
      → a.decision ≡ approved
      → (decision ≡ approved)
        × (approval.decision ≡ undecided)
        × IsGranted approval a proposal principal s r.1
unfolding decide
decide-IsGranted settings approval_id approved principal comment s approval a proposal f b h d =
    ground (arith, approve-IsGranted settings approval a proposal principal comment s)
decide-IsGranted settings approval_id refused principal comment s approval a proposal f b h d =
    ground (arith, reject_approval-decision settings approval a proposal principal comment s)
decide-IsGranted settings approval_id _ principal comment s approval a proposal f b h d = cc
