-- ===== src/Tests/Approvals.antt =====
-- Decisions on concrete approvals.
use cloud_ward.Prelude.{◌≡◌, ◌⊎◌, refl, none, some, find, any, ◌==◌, arith}
use cloud_ward.Errors.{
  ok, err, cloud_ward_error, approval_already_decided, high_risk_action_blocked,
  approval_role_insufficient,
}
use cloud_ward.Incidents.Machine.{awaiting_approval, blocked, transition_incident}
use cloud_ward.Incidents.Service.{change_incident_state, apply_change}
use cloud_ward.Rbac.{has_permission}
use cloud_ward.Store.Records.{Approval, ActionProposal, approved, refused, undecided, rejected}
use cloud_ward.Kubernetes.Executor.{get_pod_health}
use cloud_ward.Exec.{outside}
use cloud_ward.Policy.{read_reply}
use cloud_ward.Risk.Engine.{factors_in_range}
use cloud_ward.Approvals.Request.{context}
use cloud_ward.Approvals.Stale.{
  live_target, policy_gate, stale_reason, outside_reason, target_reason,
}
use cloud_ward.Approvals.Decide.{bound_proposal, decide, approve, grant_approval, with_verdict}
use cloud_ward.Approvals.Grant.{IsGranted, decide-IsGranted}
use cloud_ward.Approvals.Once.{decide-once}
use cloud_ward.Approvals.Bound.{decide-same_context, decide-high_risk, decide-refused}
use cloud_ward.Tests.World.{
  demo, demo_settings, boss, proposal_of, approval_of, incident_in, waiting,
}

-- The row of the approval once the boss has approved it.
abbrev granted_row : Approval
granted_row = with_verdict approved boss none 6 (approval_of undecided 40)

granting_run :
    (decide {P = demo} demo_settings 21 approved boss none (waiting 40)).0 ≡ ok granted_row
unfolding find decide approve grant_approval stale_reason outside_reason target_reason policy_gate
    live_target context outside has_permission get_pod_health change_incident_state apply_change
    transition_incident any factors_in_range read_reply
granting_run = refl

found_approval :
    find (λ (x : Approval). x.id == 21) (waiting 40).live.approvals
    ≡ some (approval_of undecided 40)
unfolding find
found_approval = refl

found_proposal : bound_proposal (approval_of undecided 40) (waiting 40).live ≡ some (proposal_of 40)
unfolding find
found_proposal = refl

decide-IsGranted_example :
    let r = decide {P = demo} demo_settings 21 approved boss none (waiting 40) in
    (approved ≡ approved)
    × ((approval_of undecided 40).decision ≡ undecided)
    × IsGranted (approval_of undecided 40) granted_row (proposal_of 40) boss (waiting 40) r.1
decide-IsGranted_example =
    decide-IsGranted demo_settings 21 approved boss none (waiting 40) (approval_of undecided 40)
      granted_row (proposal_of 40) found_approval found_proposal granting_run refl

decide-once_example :
    let r = decide {P = demo} demo_settings 21 approved boss none (waiting 40) in
    decide demo_settings 21 refused boss none r.1
    ≡ (err (cloud_ward_error approval_already_decided 409), r.1)
decide-once_example =
    decide-once demo_settings 21 approved refused boss boss none none (waiting 40)
      (approval_of undecided 40) granted_row found_approval refl granting_run

same_digest :
    (approval_of undecided 40).context_digest
    ≡ demo.digest (context (incident_in awaiting_approval) (proposal_of 40) 1)
unfolding context
same_digest = refl

decide-same_context_example :
    ((proposal_of 40).id ≡ (proposal_of 40).id)
    × ((proposal_of 40).action_type ≡ (proposal_of 40).action_type)
    × ((proposal_of 40).risk_score ≡ (proposal_of 40).risk_score)
    × ((proposal_of 40).parameters ≡ (proposal_of 40).parameters)
    × ((waiting 40).live.incident.id ≡ (incident_in awaiting_approval).id)
decide-same_context_example =
    decide-same_context demo_settings 21 approved boss none (waiting 40) (approval_of undecided 40)
      granted_row (proposal_of 40) (proposal_of 40) (incident_in awaiting_approval) (λ _. refl)
      same_digest found_approval found_proposal granting_run refl

found_risky :
    find (λ (x : Approval). x.id == 21) (waiting 75).live.approvals
    ≡ some (approval_of undecided 75)
unfolding find
found_risky = refl

found_risky_proposal :
    bound_proposal (approval_of undecided 75) (waiting 75).live ≡ some (proposal_of 75)
unfolding find
found_risky_proposal = refl

decide-high_risk_example :
    let r = decide {P = demo} demo_settings 21 approved boss none (waiting 75) in
    (r ≡ (err (cloud_ward_error approval_role_insufficient 403), waiting 75))
    ⊎ (r ≡ (err (cloud_ward_error high_risk_action_blocked 403), waiting 75))
decide-high_risk_example =
    decide-high_risk demo_settings 21 boss none (waiting 75) (approval_of undecided 75)
      (proposal_of 75) found_risky refl found_risky_proposal (omega arith)

decide-refused_example :
    let r = decide {P = demo} demo_settings 21 refused boss none (waiting 40) in
    (a : Approval) × (r.0 ≡ ok a)
    × (a.decision ≡ refused)
    × (r.1.live.incident.state ≡ blocked)
    × (find (λ (p : ActionProposal). p.id == 11) r.1.live.proposals
        ≡ some (record (proposal_of 40) { status = rejected }))
    × (find (λ (x : Approval). x.id == 21) r.1.live.approvals ≡ some a)
    × (r.1.calls ≡ (waiting 40).calls)
decide-refused_example =
    decide-refused demo_settings 21 boss none (waiting 40) (approval_of undecided 40)
      (proposal_of 40) found_approval refl found_proposal refl
