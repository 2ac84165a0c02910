-- ===== src/Remediation/Rounds.antt =====
-- backend/app/remediation/pipeline.py: the rounds of deletion and verification.
use cloud_ward.Prelude.{
  ℕ, zero, suc, ◌+◌, ◌*◌, min, ltb, Option, none, some, List, [], ◌∷◌, if◌then◌else◌,
}
use cloud_ward.Errors.{python_error, out_of_rounds, retry_policy_denied}
use cloud_ward.Incidents.Machine.{IncidentState, executing, verifying, resolved, escalated}
use cloud_ward.Incidents.Service.{no_details, set_incident}
use cloud_ward.Actions.Registry.{delete_unhealthy_pod}
use cloud_ward.Store.Records.{
  ActionExecution, running, succeeded, failed, empty_result, detail_result, deletion_result,
  health_check,
}
use cloud_ward.Store.Case.{Case, save_execution, set_proposal_status, set_runbook_status}
use cloud_ward.Settings.{Settings}
use cloud_ward.Platform.{Platform, PodState, PolicyResult}
use cloud_ward.Exec.{Exec, pure, raise, rows, on_rows, utc_now, commit, ◌>>=◌, ◌>>◌}
use cloud_ward.Kubernetes.Executor.{ensure, delete_pod}
use cloud_ward.Execution.Claim.{insert_execution}
use cloud_ward.Verification.Engine.{VerificationResult, verify_until}
use cloud_ward.Runbooks.Schema.{RunbookDocument, timeout_seconds}
use cloud_ward.Evidence.{unhealthy_pods, collect_kubernetes_state}
use cloud_ward.Remediation.Plan.{
  UnhealthyPodTarget, PipelineOutcome, Actor, Plan, verification_target, add_snapshot, change,
  audit, ask_policy,
}

-- The new row of a round.
unfoldable pub round_execution : ℕ → ℕ → ℕ → ℕ → ActionExecution
round_execution id incident_id proposal_id attempt = record {
  id = id;
  incident_id = incident_id;
  proposal_id = proposal_id;
  action_type = delete_unhealthy_pod;
  attempt = attempt;
  status = running;
  result = empty_result;
  error_code = none;
  completed_at = none;
  idempotency_key = none;
  rollback_of_execution_id = none;
  rolled_back_at = none;
}

-- `unhealthy[0] if len(unhealthy) == 1 else None`
abbrev pub single : List PodState → Option PodState
single [] = none
single (pod ∷ []) = some pod
single (pod ∷ other ∷ rest) = none

-- `min(runbook.verify.timeout_seconds, settings.verification_timeout_seconds)`, in milliseconds.
abbrev pub round_timeout : Settings → RunbookDocument → ℕ
round_timeout settings runbook =
    min (timeout_seconds runbook.timeout * 1_000) settings.verification_timeout

abbrev pub outcome_of :
    Case → IncidentState → Plan → PolicyResult → Option VerificationResult → ℕ → PipelineOutcome
outcome_of c state plan policy verification attempts = record {
  incident_id = c.incident.id;
  state = state;
  risk_score = some plan.risk.score;
  policy = some policy;
  verification = verification;
  attempts = attempts;
}

module _ {P : Platform} where
  -- The deletion of the round's pod, or the failed execution of a round without one.
  unfoldable pub delete_current :
      Settings
      → Actor
      → UnhealthyPodTarget
      → Plan
      → ActionExecution
      → Option PodState
      → Exec P (Unit {0})
  unfolding save_execution
  delete_current settings who target plan execution none = do
    time ← utc_now
    on_rows (
        save_execution (record execution {
          status = failed;
          error_code = some "NO_UNHEALTHY_TARGET";
          result = detail_result "No unhealthy pod remained for action retry";
          completed_at = some time;
        }))
  delete_current settings who target plan execution (some pod) = do
    delete_pod settings.allowed_namespaces target.namespace pod.name
    time ← utc_now
    on_rows (
        save_execution (record execution {
          status = succeeded;
          result = deletion_result target.namespace pod.name;
          completed_at = some time;
        }))
    audit who "ACTION_EXECUTED" (some plan.proposal.action_type) (some plan.risk.score)
        (some "ALLOW") "SUCCEEDED"

  -- The first half of a round, up to its commit.
  unfoldable pub execute_round :
      Settings → Actor → UnhealthyPodTarget → Plan → ℕ → Option PodState → Exec P (Unit {0})
  execute_round settings who target plan attempt pod = do
    on_rows (set_incident (λ i. record i { retry_count = attempt }))
    c ← rows
    let execution = round_execution c.next_id c.incident.id plan.proposal.id attempt
    insert_execution execution
    delete_current settings who target plan execution pod
    change settings who verifying no_details
    commit

  -- A loop that has used up its rounds is no result of the source.
  abbrev pub or_rounds : Option VerificationResult → Exec P VerificationResult
  or_rounds none = raise (python_error out_of_rounds)
  or_rounds (some v) = pure v

  -- The verification of a round, and its records; the summary leaves out the number of the attempt.
  -- A timeout of n milliseconds takes at most n + 1 rounds of polling.
  unfoldable pub verify_round :
      Settings → Actor → UnhealthyPodTarget → Plan → ℕ → Exec P VerificationResult
  verify_round settings who target plan attempt = do
    let timeout = round_timeout settings plan.runbook
    polled ←
        verify_until (suc timeout) (verification_target target) timeout settings.verification_poll
    v ← or_rounds polled
    on_rows (add_snapshot health_check "Post-remediation verification attempt")
    audit who "VERIFICATION_COMPLETED" (some plan.proposal.action_type) (some plan.risk.score) none
        (if v.success then "SUCCEEDED" else "FAILED")
    pure v

  -- The end of a successful round.
  unfoldable pub resolve_round :
      Settings → Actor → Plan → PolicyResult → VerificationResult → ℕ → Exec P PipelineOutcome
  resolve_round settings who plan policy v attempt = do
    on_rows (set_proposal_status plan.proposal.id succeeded)
    on_rows (set_runbook_status plan.runbook_execution_id succeeded)
    change settings who resolved no_details
    audit who "INCIDENT_RESOLVED" none none none "SUCCEEDED"
    commit
    c ← rows
    pure (outcome_of c resolved plan policy (some v) attempt)

  -- The end of the last round without a success.
  unfoldable pub give_up :
      Settings → Actor → Plan → PolicyResult → Option VerificationResult → Exec P PipelineOutcome
  give_up settings who plan policy verification = do
    on_rows (set_proposal_status plan.proposal.id failed)
    on_rows (set_runbook_status plan.runbook_execution_id failed)
    change settings who escalated
        (record no_details { reason = some "maximum remediation attempts reached" })
    audit who "INCIDENT_ESCALATED" none none none "FAILED"
    commit
    c ← rows
    pure (outcome_of c escalated plan policy verification settings.max_remediation_attempts)

  -- The policy is asked again for a newly discovered pod, and must allow it.
  abbrev pub authorize_retry : UnhealthyPodTarget → Plan → Option PodState → Exec P (Unit {0})
  authorize_retry target plan none = pure tt
  authorize_retry target plan (some pod) = do
    policy ← ask_policy target pod plan.proposal.action_type plan.risk plan.proposal.id
    ensure policy.allowed retry_policy_denied 403

  -- The pod of the next round.
  unfoldable pub prepare_retry :
      Settings → Actor → UnhealthyPodTarget → Plan → Exec P (Option PodState)
  prepare_retry settings who target plan = do
    change settings who executing no_details
    refreshed ← collect_kubernetes_state target.namespace target.deployment target.label_selector
    let pod = single (unhealthy_pods refreshed)
    authorize_retry target plan pod
    commit
    pure pod

  -- `if attempt < max_remediation_attempts`
  unfoldable pub next_pod :
      Settings → Actor → UnhealthyPodTarget → Plan → ℕ → Option PodState → Exec P (Option PodState)
  next_pod settings who target plan attempt pod =
      if ltb attempt settings.max_remediation_attempts
      then prepare_retry settings who target plan
      else pure pod

  -- What follows a verification: the end, or the rounds that are left.
  unfoldable pub continue_round :
      Settings
      → Actor
      → UnhealthyPodTarget
      → Plan
      → PolicyResult
      → ℕ
      → Option PodState
      → (Option PodState → Option VerificationResult → Exec P PipelineOutcome)
      → VerificationResult
      → Exec P PipelineOutcome
  continue_round settings who target plan policy attempt pod rest v =
      if v.success
      then resolve_round settings who plan policy v attempt
      else do following ← next_pod settings who target plan attempt pod; rest following (some v)

  -- The `for` loop, with the number of rounds that are left.
  unfoldable pub run_rounds :
      ℕ
      → Settings
      → Actor
      → UnhealthyPodTarget
      → Plan
      → PolicyResult
      → ℕ
      → Option PodState
      → Option VerificationResult
      → Exec P PipelineOutcome
  run_rounds zero settings who target plan policy attempt pod last =
      give_up settings who plan policy last
  run_rounds (suc left) settings who target plan policy attempt pod last = do
    execute_round settings who target plan attempt pod
    v ← verify_round settings who target plan attempt
    continue_round settings who target plan policy attempt pod
        (run_rounds left settings who target plan policy (attempt + 1)) v
