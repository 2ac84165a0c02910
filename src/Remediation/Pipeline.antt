-- ===== src/Remediation/Pipeline.antt =====
-- backend/app/remediation/pipeline.py: `UnhealthyPodPipeline.run`.
use cloud_ward.Prelude.{String, not, none, some, List, if◌then◌else◌}
use cloud_ward.Errors.{Result, ok, err, ErrorCode, cloud_ward_error, python_error}
use cloud_ward.Incidents.Machine.{
  IncidentState, awaiting_approval, blocked, escalated, executing, is_terminal,
}
use cloud_ward.Incidents.Service.{NewIncident, no_details, create_incident}
use cloud_ward.Store.Records.{pending, rejected, running}
use cloud_ward.Store.Case.{Case, set_proposal_status, set_runbook_status}
use cloud_ward.Settings.{Settings}
use cloud_ward.Platform.{Platform, PolicyResult}
use cloud_ward.Exec.{Exec, Session, pure, rows, on_rows, commit, roll_back, when, ◌>>=◌, ◌>>◌}
use cloud_ward.Runbooks.Schema.{RunbookDocument}
use cloud_ward.Remediation.Plan.{
  UnhealthyPodTarget, PipelineOutcome, Actor, Plan, change, audit, gather_evidence,
  select_unhealthy_pod, select_runbook, propose_action, ask_policy,
}
use cloud_ward.Remediation.Rounds.{outcome_of, run_rounds}

-- The incident that a run opens.
unfoldable pub pod_incident : UnhealthyPodTarget → String → Actor → NewIncident
pod_incident target correlation_id who = record {
  correlation_id = correlation_id;
  incident_type = "reliability";
  title = "Unhealthy Demo Pod";
  environment = target.environment;
  summary = some "A controlled CloudWard demo pod failed readiness";
  service_id = none;
  cluster_id = none;
  actor = who.actor;
  actor_type = who.actor_type;
}

-- Where a refusal of the policy leaves the incident.
abbrev pub withheld_state : PolicyResult → IncidentState
withheld_state policy = if policy.requires_approval then awaiting_approval else blocked

-- The outcome of a run that failed, from the rows of the incident.
abbrev pub failed_outcome : Case → PipelineOutcome
failed_outcome c = record {
  incident_id = c.incident.id;
  state = c.incident.state;
  risk_score = c.incident.risk_score;
  policy = none;
  verification = none;
  attempts = c.incident.retry_count;
}

module _ {P : Platform} where
  -- `if not policy.allowed`
  unfoldable pub withhold : Settings → Actor → Plan → PolicyResult → Exec P PipelineOutcome
  withhold settings who plan policy = do
    change settings who (withheld_state policy)
        (record no_details { policy_reason = some policy.reason })
    let status = if policy.requires_approval then pending else rejected
    on_rows (set_proposal_status plan.proposal.id status)
    on_rows (set_runbook_status plan.runbook_execution_id status)
    when policy.requires_approval (
        audit who "APPROVAL_REQUESTED" (some plan.proposal.action_type) (some plan.risk.score)
          (some "APPROVAL_REQUIRED") "PENDING")
    commit
    c ← rows
    pure (outcome_of c (withheld_state policy) plan policy none 0)

  -- The rounds, once the policy has allowed the action.
  unfoldable pub carry_out :
      Settings → Actor → UnhealthyPodTarget → Plan → PolicyResult → Exec P PipelineOutcome
  carry_out settings who target plan policy = do
    on_rows (set_proposal_status plan.proposal.id running)
    change settings who executing no_details
    commit
    run_rounds settings.max_remediation_attempts settings who target plan policy 1 (some plan.pod)
        none

  -- The policy's answer for the chosen pod, and what follows from it.
  unfoldable pub act_on_policy :
      Settings → Actor → UnhealthyPodTarget → Plan → Exec P PipelineOutcome
  act_on_policy settings who target plan = do
    policy ← ask_policy target plan.pod plan.proposal.action_type plan.risk plan.proposal.id
    audit who "OPA_EVALUATED" (some plan.proposal.action_type) (some plan.risk.score)
        (some (if policy.allowed then "ALLOW" else "DENY")) "SUCCEEDED"
    if policy.allowed
        then carry_out settings who target plan policy
        else withhold settings who plan policy

  -- `_process`
  unfoldable pub process :
      Settings → Actor → UnhealthyPodTarget → List RunbookDocument → Exec P PipelineOutcome
  process settings who target runbooks = do
    evidence ← gather_evidence settings who target
    pod ← select_unhealthy_pod evidence target.pod_name
    selected ← select_runbook settings who target runbooks evidence pod
    plan ← propose_action settings who target pod selected
    act_on_policy settings who target plan

  -- `except CloudWardError`
  unfoldable pub escalate_failure : Settings → Actor → ErrorCode → Exec P PipelineOutcome
  escalate_failure settings who code = do
    roll_back
    c ← rows
    when (not (is_terminal c.incident.state)) (do
      change settings who escalated (record no_details { error_code = some code })
      audit who "INCIDENT_ESCALATED" none none none "FAILED"
      commit)
    after ← rows
    pure (failed_outcome after)

  -- The `try` statement: only a CloudWardError is caught.
  abbrev pub recover :
      Settings → Actor → Result PipelineOutcome × Session P → Result PipelineOutcome × Session P
  recover settings who (ok outcome, s) = (ok outcome, s)
  recover settings who (err (cloud_ward_error code status), s) =
      escalate_failure settings who code s
  recover settings who (err (python_error e), s) = (err (python_error e), s)

  -- `run`
  unfoldable pub run :
      Settings → Actor → UnhealthyPodTarget → List RunbookDocument → String → Exec P PipelineOutcome
  run settings who target runbooks correlation_id = do
    create_incident (pod_incident target correlation_id who)
    commit
    λ s. recover settings who (process settings who target runbooks s)
