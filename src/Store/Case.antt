-- ===== src/Store/Case.antt =====
-- The tables, as far as they belong to the incident that an operation holds: the incident's row,
-- and its other rows, the newest first. `next_id` stands for the fresh identifiers.
use cloud_ward.Prelude.{ℕ, List, ◌∷◌, String, ◌==◌, update_where}
use cloud_ward.Store.Records.{
  Incident, IncidentEvent, StreamEvent, AuditEvent, ActionProposal, Approval, PolicyDecision,
  ActionExecution, EvidenceSnapshot, RunbookExecution, VerificationRecord, RecordStatus,
}
use cloud_ward.Incidents.Machine.{IncidentState}

pub record Case : Type 0 where
  pub incident : Incident
  pub timeline : List IncidentEvent
  pub stream : List StreamEvent
  pub audit : List AuditEvent
  pub proposals : List ActionProposal
  pub approvals : List Approval
  pub decisions : List PolicyDecision
  pub executions : List ActionExecution
  pub snapshots : List EvidenceSnapshot
  pub runbook_executions : List RunbookExecution
  pub verifications : List VerificationRecord
  -- The calls of `queue_incident_notification`, by their event type.
  pub notifications : List String
  -- The calls of `capture_terminal_incident`, by the state that is captured.
  pub memories : List IncidentState
  pub next_id : ℕ

unfoldable pub set_proposal_status : ℕ → RecordStatus → Case → Case
set_proposal_status id status c = record c {
  proposals = update_where (λ p. p.id == id) (λ p. record p { status = status }) c.proposals;
}

unfoldable pub set_runbook_status : ℕ → RecordStatus → Case → Case
set_runbook_status id status c = record c {
  runbook_executions =
      update_where (λ r. r.id == id) (λ r. record r { status = status }) c.runbook_executions;
}

-- Writing back a row that was changed in hand.
unfoldable pub save_approval : Approval → Case → Case
save_approval a c = record c { approvals = update_where (λ r. r.id == a.id) (λ _. a) c.approvals }

unfoldable pub save_execution : ActionExecution → Case → Case
save_execution x c = record c {
  executions = update_where (λ r. r.id == x.id) (λ _. x) c.executions;
}

-- `append_stream_event`
unfoldable pub append_stream_event : String → Case → Case
append_stream_event event c = record c {
  stream = record { event_type = event; incident_id = c.incident.id } ∷ c.stream;
}
