-- ===== src/Approvals/Decide.antt =====
-- backend/app/approvals/service.py: `ApprovalService.decide`.
use cloud_ward.Prelude.{
  ℕ, String, Bool, true, false, not, Option, none, some, ◌∷◌, ◌==◌, leb, find, if◌then◌else◌,
}
use cloud_ward.Errors.{
  invalid_approval_decision, approval_not_found, approval_already_decided, approval_context_missing,
  approval_role_insufficient, high_risk_action_blocked,
}
use cloud_ward.Incidents.Machine.{awaiting_approval, blocked, policy_evaluation, same_state}
use cloud_ward.Incidents.Service.{change_incident_state, no_details}
use cloud_ward.Rbac.{Principal, has_permission}
use cloud_ward.Actions.Registry.{action_registry}
use cloud_ward.Store.Records.{
  Approval, ActionProposal, ApprovalDecision, undecided, approved, refused, expired, invalidated,
  InvalidReason, context_missing, rejected, pending, user,
}
use cloud_ward.Store.Case.{Case, save_approval, set_proposal_status, append_stream_event}
use cloud_ward.Settings.{Settings}
use cloud_ward.Platform.{Platform}
use cloud_ward.Exec.{Exec, pure, rows, on_rows, utc_now, when, ◌>>=◌, ◌>>◌}
use cloud_ward.Kubernetes.Executor.{cloud_error, ensure}
use cloud_ward.Approvals.Stale.{stale_reason}

abbrev pub is_undecided : ApprovalDecision → Bool
is_undecided undecided = true
is_undecided _ = false

abbrev pub is_verdict : ApprovalDecision → Bool
is_verdict approved = true
is_verdict refused = true
is_verdict _ = false

-- `principal.user_id if principal.persisted else None`
abbrev actor_id_of : Principal → Option ℕ
actor_id_of principal = if principal.persisted then some principal.user_id else none

-- `_audit_decision`, for the given event.
unfoldable pub audit_decision : Approval → Principal → String → String → Case → Case
audit_decision approval principal event result c = record c {
  audit =
      record {
        event_type = event;
        incident_id = c.incident.id;
        actor = principal.login;
        actor_type = user;
        actor_id = actor_id_of principal;
        action = some approval.action;
        risk_score = some approval.risk_score;
        policy_decision = none;
        result = result;
      }
      ∷ c.audit;
}

-- The fields that a verdict of the principal writes.
abbrev pub with_verdict : ApprovalDecision → Principal → Option String → ℕ → Approval → Approval
with_verdict decision principal comment time approval = record approval {
  decision = decision;
  actor_id = actor_id_of principal;
  decided_by = some principal.login;
  decided_at = some time;
  decision_comment = comment;
}

-- `session.get(Incident, …)` and `session.get(ActionProposal, …)`: the session holds the rows of one
-- incident, and finds the approval's proposal among them.
abbrev pub bound_proposal : Approval → Case → Option ActionProposal
bound_proposal approval c =
    if approval.incident_id == c.incident.id
    then find (λ (p : ActionProposal). p.id == approval.proposal_id) c.proposals
    else none

module _ {P : Platform} where
  -- `_invalidate` reads the clock twice.
  unfoldable pub invalidate : Approval → InvalidReason → Exec P Approval
  unfolding save_approval
  invalidate approval reason = do
    time ← utc_now
    decided ← utc_now
    let after = record approval {
      decision = if leb approval.expires_at time then expired else invalidated;
      decided_at = some decided;
      decided_by = some "cloudward-approval-guard";
      invalidated_reason = some reason;
    }
    on_rows (save_approval after)
    pure after

  -- The audit and stream rows with which a decision ends.
  unfoldable pub close_decision : Approval → Principal → String → String → Exec P Approval
  unfolding audit_decision append_stream_event
  close_decision approval principal event result = do
    on_rows (audit_decision approval principal event result)
    on_rows (append_stream_event "approval.changed")
    pure approval

  unfoldable pub reject_approval :
      Settings → Approval → ActionProposal → Principal → Option String → Exec P Approval
  unfolding save_approval set_proposal_status close_decision
  reject_approval settings approval proposal principal comment = do
    time ← utc_now
    let after = with_verdict refused principal comment time approval
    on_rows (set_proposal_status proposal.id rejected)
    on_rows (save_approval after)
    change_incident_state settings blocked principal.login user no_details false
    close_decision after principal "APPROVAL_REJECTED" "REJECTED"

  -- What `decide` does with a reason for which the approval no longer stands.
  unfoldable pub invalidate_stale :
      Settings → Approval → ActionProposal → Principal → InvalidReason → Exec P Approval
  unfolding set_proposal_status invalidate close_decision
  invalidate_stale settings approval proposal principal reason = do
    on_rows (set_proposal_status proposal.id rejected)
    after ← invalidate approval reason
    c ← rows
    when (same_state c.incident.state awaiting_approval)
        (change_incident_state settings blocked "cloudward-approval-guard" user no_details false)
    close_decision after principal "APPROVAL_INVALIDATED" "INVALIDATED"

  unfoldable pub grant_approval :
      Settings → Approval → ActionProposal → Principal → Option String → Exec P Approval
  unfolding save_approval set_proposal_status close_decision
  grant_approval settings approval proposal principal comment = do
    time ← utc_now
    let after = with_verdict approved principal comment time approval
    on_rows (save_approval after)
    on_rows (set_proposal_status proposal.id pending)
    change_incident_state settings policy_evaluation principal.login user no_details false
    close_decision after principal "APPROVAL_APPROVED" "APPROVED"

  abbrev pub settle :
      Settings
      → Approval
      → ActionProposal
      → Principal
      → Option String
      → Option InvalidReason
      → Exec P Approval
  settle settings approval proposal principal comment (some reason) =
      invalidate_stale settings approval proposal principal reason
  settle settings approval proposal principal comment none =
      grant_approval settings approval proposal principal comment

  -- The gates of an approving decision.
  unfoldable pub approve :
      Settings → Approval → ActionProposal → Principal → Option String → Exec P Approval
  approve settings approval proposal principal comment = do
    ensure
        (has_permission principal.role (action_registry proposal.action_type).required_permission)
        approval_role_insufficient 403
    ensure (not (leb 70 proposal.risk_score)) high_risk_action_blocked 403
    reason ← stale_reason approval proposal principal
    settle settings approval proposal principal comment reason

  abbrev pub decide_bound :
      Settings
      → ApprovalDecision
      → Principal
      → Option String
      → Approval
      → Option ActionProposal
      → Exec P Approval
  decide_bound settings decision principal comment approval none = do
    invalidate approval context_missing
    cloud_error approval_context_missing 409
  decide_bound settings refused principal comment approval (some proposal) =
      reject_approval settings approval proposal principal comment
  decide_bound settings _ principal comment approval (some proposal) =
      approve settings approval proposal principal comment

  abbrev pub decide_found :
      Settings → ApprovalDecision → Principal → Option String → Option Approval → Exec P Approval
  decide_found settings decision principal comment none = cloud_error approval_not_found 404
  decide_found settings decision principal comment (some approval) = do
    ensure (is_undecided approval.decision) approval_already_decided 409
    c ← rows
    decide_bound settings decision principal comment approval (bound_proposal approval c)

  -- `ApprovalService.decide`
  unfoldable pub decide :
      Settings → ℕ → ApprovalDecision → Principal → Option String → Exec P Approval
  decide settings approval_id decision principal comment = do
    ensure (is_verdict decision) invalid_approval_decision 400
    c ← rows
    decide_found settings decision principal comment
        (find (λ (a : Approval). a.id == approval_id) c.approvals)
