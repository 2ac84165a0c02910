-- ===== src/Approvals/Request.antt =====
-- backend/app/approvals/service.py: `ensure_runtime_approval` and the context that it binds.
use cloud_ward.Prelude.{ℕ, ◌+◌, String, Bool, ◌&&◌, Option, none, some, ◌∷◌, ◌==◌, max, find}
use cloud_ward.Incidents.Machine.{awaiting_approval}
use cloud_ward.Actions.Registry.{action_registry}
use cloud_ward.Store.Records.{
  Incident, ActionProposal, Approval, ApprovalContext, undecided, system,
}
use cloud_ward.Store.Case.{Case}
use cloud_ward.Settings.{Settings}
use cloud_ward.Platform.{Platform}
use cloud_ward.Exec.{Exec, pure, rows, on_rows, utc_now, ◌>>=◌, ◌>>◌}

-- `_context`
unfoldable pub context : Incident → ActionProposal → ℕ → ApprovalContext
context incident proposal proposal_version = record {
  incident_id = incident.id;
  incident_state = awaiting_approval;
  proposal_id = proposal.id;
  proposal_version = proposal_version;
  action = proposal.action_type;
  risk_score = proposal.risk_score;
  parameters = proposal.parameters;
}

abbrev pub count_or_one : Option ℕ → ℕ
count_or_one none = 1
count_or_one (some n) = n

-- The new row, once `utc_now()` and the digest of its context are known.
unfoldable pub new_approval :
    ℕ → Settings → Incident → ActionProposal → String → Option String → ℕ → ℕ → Approval
new_approval id settings incident proposal requested_by reason digest time = record {
  id = id;
  incident_id = incident.id;
  proposal_id = proposal.id;
  actor_id = none;
  decision = undecided;
  reason = reason;
  action = proposal.action_type;
  environment = incident.environment;
  risk_score = proposal.risk_score;
  blast_radius = max 1 (count_or_one proposal.parameters.target_count);
  reversible = (action_registry proposal.action_type).reversible;
  requested_by = requested_by;
  runbook = incident.runbook_id;
  proposal_version = 1;
  expected_state = context incident proposal 1;
  context_digest = digest;
  expires_at = time + settings.approval_ttl_seconds;
  decided_at = none;
  decided_by = none;
  decision_comment = none;
  invalidated_reason = none;
  execution_claimed_at = none;
  execution_reference = none;
}

-- The insertion, the audit row and the stream row of a new approval.
unfoldable pub add_approval : Approval → String → Case → Case
add_approval approval requested_by c = record c {
  approvals = approval ∷ c.approvals;
  next_id = c.next_id + 1;
  audit =
      record {
        event_type = "APPROVAL_REQUESTED";
        incident_id = approval.incident_id;
        actor = requested_by;
        actor_type = system;
        actor_id = none;
        action = some approval.action;
        risk_score = some approval.risk_score;
        policy_decision = some "APPROVAL_REQUIRED";
        result = "PENDING";
      }
      ∷ c.audit;
  stream =
      record { event_type = "approval.changed"; incident_id = approval.incident_id } ∷ c.stream;
}

-- `Approval.proposal_id == proposal.id, Approval.proposal_version == 1`
abbrev pub is_first_version_for : ActionProposal → Approval → Bool
is_first_version_for proposal a = a.proposal_id == proposal.id && a.proposal_version == 1

unfoldable pub ensure_runtime_approval :
    {P : Platform} → Settings → ActionProposal → String → Option String → Exec P Approval
unfolding new_approval add_approval
ensure_runtime_approval {P} settings proposal requested_by reason = do
  c ← rows
  elim (find (is_first_version_for proposal) c.approvals) [
    | some existing ↦ pure existing
    | none ↦ do
      time ← utc_now
      let approval =
          new_approval c.next_id settings c.incident proposal requested_by reason
            (P.digest (context c.incident proposal 1)) time
      on_rows (add_approval approval requested_by)
      pure approval
  ]
