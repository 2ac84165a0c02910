-- ===== src/Execution/Rollback.antt =====
-- backend/app/remediation/execution.py: `RollbackCoordinator`.
use cloud_ward.Prelude.{
  ℕ, Option, ◌+◌, String, Bool, not, ◌||◌, none, some, ◌==◌, leb, ltb, find, if◌then◌else◌,
}
use cloud_ward.Errors.{
  rollback_state_unavailable, action_proposal_not_found, remediation_attempt_limit,
}
use cloud_ward.Actions.Registry.{
  ActionType, scale_staging_deployment, action_registry, typed, require_executable_action,
}
use cloud_ward.Store.Records.{
  ActionProposal, ActionExecution, ActionResult, scale_result, empty_result, running, succeeded,
  system, environment_value,
}
use cloud_ward.Store.Case.{append_stream_event, save_execution}
use cloud_ward.Incidents.Service.{audit_row}
use cloud_ward.Settings.{Settings}
use cloud_ward.Platform.{Platform}
use cloud_ward.Exec.{Exec, pure, lift, rows, on_rows, utc_now, ◌>>=◌, ◌>>◌}
use cloud_ward.Kubernetes.Executor
use cloud_ward.Kubernetes.Executor.{cloud_error, ensure, or_error}
use cloud_ward.Execution.Claim.{insert_execution}

pub data RollbackDisposition : Type 0 where
  automatic awaiting_approval escalate not_available : RollbackDisposition

-- `RollbackCoordinator.decide`
unfoldable pub decide_rollback : ℕ → ActionType → ℕ → Bool → Bool → RollbackDisposition
decide_rollback automatic_max_risk action risk_score rollback_enabled policy_allows_rollback =
    let metadata = action_registry action in
    if not rollback_enabled || not metadata.reversible || not metadata.rollback_capable
    then not_available
    else if not policy_allows_rollback
    then escalate
    else if metadata.persistent
    then (if ltb risk_score 70 then awaiting_approval else escalate)
    else if leb risk_score automatic_max_risk
    then automatic
    else if ltb risk_score 70
    then awaiting_approval
    else escalate

-- The keys of a scale result that a rollback reads, with their defaults.
pub record ScaleFacts : Type 0 where
  pub namespace : String
  pub deployment : String
  pub previous : ℕ
  pub requested : ℕ

abbrev pub scale_facts : ActionResult → ScaleFacts
scale_facts (scale_result namespace deployment previous requested) = record {
  namespace = namespace;
  deployment = deployment;
  previous = previous;
  requested = requested;
}
scale_facts _ = record { namespace = ""; deployment = ""; previous = 0; requested = 0 }

-- The new row of a rollback.
abbrev pub rollback_execution : ℕ → ℕ → ActionProposal → ActionExecution → ℕ → ActionExecution
rollback_execution id incident_id proposal failed_execution key = record {
  id = id;
  incident_id = incident_id;
  proposal_id = proposal.id;
  action_type = scale_staging_deployment;
  attempt = failed_execution.attempt + 1;
  status = running;
  result = empty_result;
  error_code = none;
  completed_at = none;
  idempotency_key = some key;
  rollback_of_execution_id = some failed_execution.id;
  rolled_back_at = none;
}

module _ {P : Platform} where
  -- The rows that an accepted scale request leaves.
  unfoldable pub record_rollback :
      ActionExecution → ScaleFacts → ActionExecution → ℕ × ℕ → Exec P ActionExecution
  unfolding save_execution audit_row append_stream_event
  record_rollback failed_execution facts rollback scaled = do
    completed ← utc_now
    let after = record rollback {
      status = succeeded;
      result = scale_result facts.namespace facts.deployment scaled.0 scaled.1;
      completed_at = some completed;
    }
    on_rows (save_execution after)
    rolled_back ← utc_now
    on_rows (save_execution (record failed_execution { rolled_back_at = some rolled_back }))
    on_rows (
        audit_row "ACTION_ROLLED_BACK" "cloudward-rollback" system (some scale_staging_deployment)
          none none "SUCCEEDED")
    on_rows (append_stream_event "remediation.progress")
    pure after

  -- The insertion of the rollback, the scale request, and its rows.
  unfoldable pub run_rollback :
      Settings → ℕ → ActionExecution → ScaleFacts → ActionExecution → Exec P ActionExecution
  run_rollback settings maximum_replicas failed_execution facts rollback = do
    insert_execution rollback
    scaled ←
        Executor.scale_staging_deployment settings.allowed_namespaces facts.namespace
          facts.deployment facts.previous maximum_replicas (some facts.requested)
    record_rollback failed_execution facts rollback scaled

  -- The checks of the proposal and of the attempt, and the rollback.
  unfoldable pub rollback_proposed :
      Settings → ℕ → ActionExecution → ScaleFacts → Option ActionProposal → Exec P ActionExecution
  rollback_proposed settings maximum_replicas failed_execution facts found = do
    proposal ← or_error found action_proposal_not_found 404
    ensure (not (leb 3 failed_execution.attempt)) remediation_attempt_limit 409
    c ← rows
    run_rollback settings maximum_replicas failed_execution facts (
        rollback_execution c.next_id c.incident.id proposal failed_execution
          (P.rollback_key failed_execution.id facts.previous))

  -- `RollbackCoordinator.rollback_scale`
  unfoldable pub rollback_scale : Settings → ℕ → ActionExecution → Exec P ActionExecution
  rollback_scale settings maximum_replicas failed_execution = do
    c ← rows
    lift (
        require_executable_action (typed scale_staging_deployment)
          (environment_value c.incident.environment))
    let facts = scale_facts failed_execution.result
    ensure (not (ltb facts.previous 1 || ltb facts.requested 1)) rollback_state_unavailable 409
    rollback_proposed settings maximum_replicas failed_execution facts
        (find (λ (p : ActionProposal). p.id == failed_execution.proposal_id) c.proposals)
