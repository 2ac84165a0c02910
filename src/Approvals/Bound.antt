-- ===== src/Approvals/Bound.antt =====
-- What an approval is bound to, and the decisions that end without one.
use cloud_ward.Prelude.{
  subst, sym, find-update_where, find-passes, ==_iff, update_where, inl, inr, refl, Bool-cases,
  le→leb, ℕ, ◌≡◌, ◌≤◌, ap, ◌∙◌, String, Option, some, arith, find, ◌==◌, ◌⊎◌,
}
use cloud_ward.Errors.{
  ok, err, cloud_ward_error, approval_role_insufficient, high_risk_action_blocked,
}
use cloud_ward.Incidents.Machine.{awaiting_approval, blocked, transition_incident}
use cloud_ward.Incidents.Service.{change_incident_state, apply_change}
use cloud_ward.Actions.Registry.{action_registry}
use cloud_ward.Rbac.{Principal, has_permission}
use cloud_ward.Store.Records.{
  Incident, Approval, ActionProposal, ApprovalContext, ApprovalDecision, approved, refused,
  undecided, rejected,
}
use cloud_ward.Store.Case.{Case}
use cloud_ward.Approvals.Once.{find-update_where_approval, find-id}
use cloud_ward.Settings.{Settings}
use cloud_ward.Platform.{Platform}
use cloud_ward.Exec.{Session, outside}
use cloud_ward.Approvals.Request.{context}
use cloud_ward.Approvals.Grant.{decide-IsGranted}
use cloud_ward.Approvals.Decide.{bound_proposal, decide, approve, reject_approval, with_verdict}

-- An approval whose digest was taken from a proposal when it was requested is granted only while
-- the proposal still has the action, the risk score, the parameters and the identity that it had
-- then, and for the same incident, unless the digests of the two contexts collide.
pub decide-same_context :
    {P : Platform} (settings : Settings) (approval_id : ℕ) (decision : ApprovalDecision)
    (principal : Principal) (comment : Option String) (s : Session P) (approval a : Approval)
    (proposal requested : ActionProposal) (incident : Incident)
    → (P.digest (context s.live.incident proposal approval.proposal_version)
          ≡ P.digest (context incident requested approval.proposal_version)
        → context s.live.incident proposal approval.proposal_version
          ≡ context incident requested approval.proposal_version)
    → approval.context_digest ≡ P.digest (context incident requested approval.proposal_version)
    → find (λ (x : Approval). x.id == approval_id) s.live.approvals ≡ some approval
    → bound_proposal approval s.live ≡ some proposal
    → (decide settings approval_id decision principal comment s).0 ≡ ok a
    → a.decision ≡ approved
    → (proposal.id ≡ requested.id)
      × (proposal.action_type ≡ requested.action_type)
      × (proposal.risk_score ≡ requested.risk_score)
      × (proposal.parameters ≡ requested.parameters)
      × (s.live.incident.id ≡ incident.id)
unfolding context
decide-same_context settings approval_id decision principal comment s approval a proposal requested
      incident collision_free e f b h d =
    let (_, _, granted) =
      decide-IsGranted settings approval_id decision principal comment s approval a proposal f b h
        d in
    let same = collision_free (granted.fresh.context_bound ∙ e) in
    (
      ap (λ (c : ApprovalContext). c.proposal_id) same,
      ap (λ (c : ApprovalContext). c.action) same,
      ap (λ (c : ApprovalContext). c.risk_score) same,
      ap (λ (c : ApprovalContext). c.parameters) same,
      ap (λ (c : ApprovalContext). c.incident_id) same,
    )

-- `decide` on an undecided approval whose proposal is found.
module _ {P : Platform} (settings : Settings) (approval_id : ℕ) (principal : Principal)
    (comment : Option String) (s : Session P) (approval : Approval) (proposal : ActionProposal)
    (found : find (λ (x : Approval). x.id == approval_id) s.live.approvals ≡ some approval)
    (open_ : approval.decision ≡ undecided)
    (bound : bound_proposal approval s.live ≡ some proposal) where
  decide-approved :
      decide settings approval_id approved principal comment s
      ≡ approve settings approval proposal principal comment s
  unfolding decide
  decide-approved = rw (found, open_, bound) refl

  decide-refused_lem :
      decide settings approval_id refused principal comment s
      ≡ reject_approval settings approval proposal principal comment s
  unfolding decide
  decide-refused_lem = rw (found, open_, bound) refl

approve-high_risk :
    {P : Platform} (settings : Settings) (approval : Approval) (proposal : ActionProposal)
    (principal : Principal) (comment : Option String) (s : Session P)
    → 70 ≤ proposal.risk_score
    → let r = approve settings approval proposal principal comment s in
      (r ≡ (err (cloud_ward_error approval_role_insufficient 403), s))
      ⊎ (r ≡ (err (cloud_ward_error high_risk_action_blocked 403), s))
unfolding approve
approve-high_risk settings approval proposal principal comment s n =
    elim (Bool-cases
      (has_permission principal.role (action_registry proposal.action_type).required_permission)) [
        | inl yes_role ↦ inr (rw (yes_role, le→leb 70 proposal.risk_score n) refl)
        | inr no_role ↦ inl (rw no_role refl)
      ]

reject_approval-lem :
    {P : Platform} (settings : Settings) (approval : Approval) (proposal : ActionProposal)
    (principal : Principal) (comment : Option String) (s : Session P)
    → s.live.incident.state ≡ awaiting_approval
    → let r = reject_approval settings approval proposal principal comment s in
      (r.0 ≡ ok (with_verdict refused principal comment (P.now s.world).0 approval))
      × (r.1.live.incident.state ≡ blocked)
      × (r.1.live.proposals
          ≡ update_where
              (λ (p : ActionProposal). p.id == proposal.id)
              (λ p. record p { status = rejected })
              s.live.proposals)
      × (r.1.live.approvals
          ≡ update_where
              (λ (x : Approval). x.id == approval.id)
              (λ _. with_verdict refused principal comment (P.now s.world).0 approval)
              s.live.approvals)
      × (r.1.calls ≡ s.calls)
unfolding reject_approval change_incident_state apply_change transition_incident outside
reject_approval-lem settings approval proposal principal comment s h = ground arith

bound_proposal-found :
    (approval : Approval) (c : Case) (proposal : ActionProposal)
    → bound_proposal approval c ≡ some proposal
    → find (λ (p : ActionProposal). p.id == approval.proposal_id) c.proposals ≡ some proposal
bound_proposal-found approval c proposal h = ground arith

-- Approving an undecided approval of a proposal that scores 70 or more raises an error with status
-- 403 (for the role, or else HIGH_RISK_ACTION_BLOCKED) and changes nothing, whoever decides.
pub decide-high_risk :
    {P : Platform} (settings : Settings) (approval_id : ℕ) (principal : Principal)
    (comment : Option String) (s : Session P) (approval : Approval) (proposal : ActionProposal)
    → find (λ (x : Approval). x.id == approval_id) s.live.approvals ≡ some approval
    → approval.decision ≡ undecided
    → bound_proposal approval s.live ≡ some proposal
    → 70 ≤ proposal.risk_score
    → let r = decide settings approval_id approved principal comment s in
      (r ≡ (err (cloud_ward_error approval_role_insufficient 403), s))
      ⊎ (r ≡ (err (cloud_ward_error high_risk_action_blocked 403), s))
decide-high_risk settings approval_id principal comment s approval proposal f u b n =
    rw (decide-approved settings approval_id principal comment s approval proposal f u b)
      (approve-high_risk settings approval proposal principal comment s n)

-- Rejecting an undecided approval of an incident that waits for it succeeds for any role and returns
-- a refused approval. The incident is BLOCKED, looking up the proposal of the approval finds it with
-- the status REJECTED and otherwise unchanged, and looking up the approval finds the returned one.
-- Nothing outside is called.
pub decide-refused :
    {P : Platform} (settings : Settings) (approval_id : ℕ) (principal : Principal)
    (comment : Option String) (s : Session P) (approval : Approval) (proposal : ActionProposal)
    → find (λ (x : Approval). x.id == approval_id) s.live.approvals ≡ some approval
    → approval.decision ≡ undecided
    → bound_proposal approval s.live ≡ some proposal
    → s.live.incident.state ≡ awaiting_approval
    → let r = decide settings approval_id refused principal comment s in
      (a : Approval) × (r.0 ≡ ok a)
      × (a.decision ≡ refused)
      × (r.1.live.incident.state ≡ blocked)
      × (find (λ (p : ActionProposal). p.id == approval.proposal_id) r.1.live.proposals
          ≡ some (record proposal { status = rejected }))
      × (find (λ (x : Approval). x.id == approval_id) r.1.live.approvals ≡ some a)
      × (r.1.calls ≡ s.calls)
decide-refused {P} settings approval_id principal comment s approval proposal f u b w =
    let (result, moved, status, stored, quiet) =
      reject_approval-lem settings approval proposal principal comment s w in
    let found = bound_proposal-found approval s.live proposal b in
    let bound : proposal.id ≡ approval.proposal_id = (==_iff proposal.id approval.proposal_id).0 (
      find-passes (λ (p : ActionProposal). p.id == approval.proposal_id) proposal s.live.proposals
        found) in
    let same = find-id approval_id s.live.approvals approval f in
    let after = with_verdict refused principal comment (P.now s.world).0 approval in
    rw (decide-refused_lem settings approval_id principal comment s approval proposal f u b) (
      with_verdict refused principal comment (P.now s.world).0 approval,
      result,
      refl,
      moved,
      ap (find (λ (p : ActionProposal). p.id == approval.proposal_id)) status
          ∙ subst
              (λ n.
                find (λ (p : ActionProposal). p.id == approval.proposal_id)
                  (update_where (λ p. p.id == n) (λ p. record p { status = rejected })
                    s.live.proposals)
                ≡ some (record proposal { status = rejected }))
              (sym bound)
              (find-update_where (λ (p : ActionProposal). p.id == approval.proposal_id)
                (λ p. record p { status = rejected }) proposal s.live.proposals (λ p. refl) found),
      ap (find (λ (x : Approval). x.id == approval_id)) stored
          ∙ subst
              (λ n.
                find (λ (x : Approval). x.id == approval_id)
                  (update_where (λ x. x.id == n) (λ _. after) s.live.approvals)
                ≡ some after)
              (sym same)
              (find-update_where_approval approval_id after approval s.live.approvals same f),
      quiet,
    )
