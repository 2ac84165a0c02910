-- ===== src/Execution/Claim.antt =====
-- backend/app/remediation/execution.py: the idempotent claim of an execution, and its end.
use cloud_ward.Prelude.{
  ℕ, ◌+◌, String, Bool, true, false, not, ◌&&◌, ◌||◌, Option, none, some, List, [], ◌∷◌, ◌==◌, ltb,
  leb, any, find, if◌then◌else◌,
}
use cloud_ward.Errors.{
  python_error, integrity_error, remediation_attempt_limit, action_approval_required,
  approved_action_already_claimed,
}
use cloud_ward.Store.Records.{
  ActionProposal, ActionExecution, ActionResult, empty_result, Approval, ApprovalDecision, approved,
  Parameters, running, succeeded, failed, system,
}
use cloud_ward.Store.Case.{append_stream_event, save_execution}
use cloud_ward.Incidents.Service.{audit_row, set_incident}
use cloud_ward.Platform.{Platform}
use cloud_ward.Exec.{Exec, pure, raise, rows, on_rows, utc_now, ◌>>=◌, ◌>>◌}
use cloud_ward.Kubernetes.Executor.{ensure}

-- `ExecutionClaim`
pub record ExecutionClaim : Type 0 where
  pub execution : ActionExecution
  pub claimed : Bool

-- `ActionExecution.idempotency_key == key`
abbrev pub has_key : ℕ → ActionExecution → Bool
has_key key x = elim x.idempotency_key [ none ↦ false | some k ↦ k == key ]

abbrev pub higher_version : Approval → Option Approval → Option Approval
higher_version a none = some a
higher_version a (some b) = if ltb a.proposal_version b.proposal_version then some b else some a

-- The approval of a proposal with the highest version.
unfoldable pub latest_approval : ℕ → List Approval → Option Approval
latest_approval proposal_id [] = none
latest_approval proposal_id (a ∷ rest) =
    let older = latest_approval proposal_id rest in
    if a.proposal_id == proposal_id then higher_version a older else older

abbrev pub is_approved : ApprovalDecision → Bool
is_approved approved = true
is_approved _ = false

abbrev pub is_unclaimed : Approval → Bool
is_unclaimed a = elim a.execution_claimed_at [ none ↦ true | some t ↦ false ]

-- `execution_claimed_at` and `execution_reference` of the claimed approval.
abbrev pub mark_claimed : ℕ → ℕ → ℕ → Approval → Approval
mark_claimed approval_id time execution_id a =
    if a.id == approval_id
    then record a { execution_claimed_at = some time; execution_reference = some execution_id }
    else a

abbrev pub mark_all : (Approval → Approval) → List Approval → List Approval
mark_all f [] = []
mark_all f (a ∷ rest) = f a ∷ mark_all f rest

-- The constraints of the table: one execution for each attempt of an incident, attempts from 1 to
-- 3, and one execution for each key.
unfoldable pub may_insert : ActionExecution → List ActionExecution → Bool
may_insert x executions =
    leb 1 x.attempt
    && leb x.attempt 3
    && not (
        any (λ (y : ActionExecution). y.incident_id == x.incident_id && y.attempt == x.attempt)
          executions)
    && not (any (λ y. elim x.idempotency_key [ none ↦ false | some k ↦ has_key k y ]) executions)

-- The new row of a claim.
abbrev pub new_execution : ℕ → ℕ → ActionProposal → ℕ → ℕ → ActionExecution
new_execution id incident_id proposal attempt key = record {
  id = id;
  incident_id = incident_id;
  proposal_id = proposal.id;
  action_type = proposal.action_type;
  attempt = attempt;
  status = running;
  result = empty_result;
  error_code = none;
  completed_at = none;
  idempotency_key = some key;
  rollback_of_execution_id = none;
  rolled_back_at = none;
}

module _ {P : Platform} where
  -- `session.add(execution)` and `session.flush()`.
  unfoldable pub insert_execution : ActionExecution → Exec P (Unit {0})
  insert_execution x = do
    c ← rows
    if may_insert x c.executions
        then on_rows (λ c. record c { executions = x ∷ c.executions; next_id = c.next_id + 1 })
        else raise (python_error integrity_error)

  -- The guards on the approval of the proposal, if it has one.
  abbrev pub require_approved : Option Approval → Exec P (Unit {0})
  require_approved none = pure tt
  require_approved (some approval) = do
    ensure (is_approved approval.decision) action_approval_required 409
    ensure (is_unclaimed approval) approved_action_already_claimed 409

  abbrev pub claim_approval : Option Approval → ℕ → Exec P (Unit {0})
  claim_approval none execution_id = pure tt
  claim_approval (some approval) execution_id = do
    time ← utc_now
    on_rows (λ c. record c {
      approvals = mark_all (mark_claimed approval.id time execution_id) c.approvals;
    })

  -- The claim once its approval is accepted: the new row, the claimed approval and the records.
  unfoldable pub add_claim : ActionProposal → ℕ → ℕ → Option Approval → Exec P ExecutionClaim
  unfolding insert_execution audit_row append_stream_event
  add_claim proposal attempt key approval = do
    c ← rows
    let execution = new_execution c.next_id c.incident.id proposal attempt key
    on_rows (set_incident (λ i. record i { retry_count = attempt }))
    insert_execution execution
    claim_approval approval execution.id
    on_rows (
        audit_row "ACTION_EXECUTION_CLAIMED" "cloudward" system (some proposal.action_type)
          (some proposal.risk_score) none "SUCCEEDED")
    on_rows (append_stream_event "remediation.progress")
    pure (record { execution = execution; claimed = true })

  unfoldable pub claim_new : ActionProposal → ℕ → ℕ → Option Approval → Exec P ExecutionClaim
  claim_new proposal attempt key approval = do
    require_approved approval
    add_claim proposal attempt key approval

  abbrev pub claim_key : ActionProposal → ℕ → ℕ → Option ActionExecution → Exec P ExecutionClaim
  claim_key proposal attempt key (some existing) =
      pure (record { execution = existing; claimed = false })
  claim_key proposal attempt key none = do
    c ← rows
    claim_new proposal attempt key (latest_approval proposal.id c.approvals)

  -- `claim_action_execution`
  unfoldable pub claim_action_execution :
      ActionProposal → String → Parameters → ℕ → Exec P ExecutionClaim
  claim_action_execution proposal runbook_id target attempt = do
    ensure (not (ltb attempt 1 || ltb 3 attempt)) remediation_attempt_limit 409
    c ← rows
    let key = P.action_key c.incident.id runbook_id proposal.action_type attempt target
    claim_key proposal attempt key (find (has_key key) c.executions)

  -- `finish_action_execution`
  unfoldable pub finish_action_execution :
      ActionExecution → Bool → ActionResult → Option String → Exec P ActionExecution
  unfolding save_execution audit_row append_stream_event
  finish_action_execution execution success result error_code = do
    time ← utc_now
    let after = record execution {
      status = if success then succeeded else failed;
      result = result;
      error_code = error_code;
      completed_at = some time;
    }
    on_rows (save_execution after)
    on_rows (
        audit_row "ACTION_EXECUTED" "cloudward" system (some execution.action_type) none none
          (if success then "SUCCEEDED" else "FAILED"))
    on_rows (append_stream_event "remediation.progress")
    pure after
