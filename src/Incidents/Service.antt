-- ===== src/Incidents/Service.antt =====
-- backend/app/incidents/service.py: the operations that create and change an incident.
use cloud_ward.Prelude.{
  ℕ, ◌+◌, String, Bool, true, false, not, ◌||◌, Option, none, some, [], ◌∷◌, str_eq, ◌==◌,
  if◌then◌else◌, find,
}
use cloud_ward.Errors.{ErrorCode, ok}
use cloud_ward.Incidents.Machine.{
  IncidentState, detected, awaiting_approval, resolved, escalated, same_state, is_terminal,
  transition_incident,
}
use cloud_ward.Actions.Registry.{ActionType}
use cloud_ward.Store.Records.{
  Environment, ActorType, user, Incident, EvidenceType, ResolutionSource, ActionProposal,
}
use cloud_ward.Store.Case.{Case, append_stream_event}
use cloud_ward.Settings.{Settings}
use cloud_ward.Platform.{Platform}
use cloud_ward.Exec.{Exec, pure, lift, rows, on_rows, modify, utc_now, ◌>>=◌, ◌>>◌, when}
use cloud_ward.Approvals.Request.{ensure_runtime_approval}

-- The keys of `details` that some code reads.
pub record Details : Type 0 where
  pub policy_reason : Option String
  pub reason : Option String
  pub error_code : Option ErrorCode

abbrev pub no_details : Details
no_details = record { policy_reason = none; reason = none; error_code = none }

-- `record_audit`, for the incident in hand; the metadata are left out.
unfoldable pub audit_row :
    String
    → String
    → ActorType
    → Option ActionType
    → Option ℕ
    → Option String
    → String
    → Case
    → Case
audit_row event actor actor_type action risk_score policy_decision result c = record c {
  audit =
      record {
        event_type = event;
        incident_id = c.incident.id;
        actor = actor;
        actor_type = actor_type;
        actor_id = none;
        action = action;
        risk_score = risk_score;
        policy_decision = policy_decision;
        result = result;
      }
      ∷ c.audit;
}

-- An `IncidentEvent` of the incident in hand.
unfoldable pub timeline_row :
    String → Option IncidentState → IncidentState → String → ActorType → Case → Case
timeline_row event from_state to_state actor actor_type c = record c {
  timeline =
      record {
        event_type = event;
        from_state = from_state;
        to_state = to_state;
        actor = actor;
        actor_type = actor_type;
      }
      ∷ c.timeline;
}

abbrev pub set_incident : (Incident → Incident) → Case → Case
set_incident f c = record c { incident = f c.incident }

-- The arguments of `create_incident`.
pub record NewIncident : Type 0 where
  pub correlation_id : String
  pub incident_type : String
  pub title : String
  pub environment : Environment
  pub summary : Option String
  pub service_id : Option ℕ
  pub cluster_id : Option ℕ
  pub actor : String
  pub actor_type : ActorType

-- The rows of an incident that has just been created.
unfoldable pub fresh_case : ℕ → NewIncident → Case
fresh_case id n = record {
  incident = record {
    id = id;
    correlation_id = n.correlation_id;
    cluster_id = n.cluster_id;
    service_id = n.service_id;
    incident_type = n.incident_type;
    title = n.title;
    summary = n.summary;
    environment = n.environment;
    state = detected;
    severity = "warning";
    risk_score = none;
    retry_count = 0;
    runbook_id = none;
    runbook_version = none;
    resolved_at = none;
    resolution_source = none;
  };
  timeline = [];
  stream = [];
  audit = [];
  proposals = [];
  approvals = [];
  decisions = [];
  executions = [];
  snapshots = [];
  runbook_executions = [];
  verifications = [];
  notifications = [];
  memories = [];
  next_id = id + 1;
}

-- The timeline, stream and audit rows.
unfoldable pub record_change : IncidentState → IncidentState → String → ActorType → Case → Case
unfolding timeline_row append_stream_event audit_row
record_change previous target actor actor_type c =
    audit_row "INCIDENT_STATE_CHANGED" actor actor_type none none none "SUCCEEDED" (
      append_stream_event "incident.state_changed"
        (timeline_row "STATE_CHANGED" (some previous) target actor actor_type c))

-- `a or b` of two optional texts.
abbrev pub or_text : Option String → Option String → Option String
or_text none b = b
or_text (some a) b = if str_eq a "" then b else some a

-- Whether there is an error code; none of them is an empty text.
abbrev is_given : Option ErrorCode → Bool
is_given none = false
is_given (some a) = true

-- The event of `notification_event`, for a target that has one.
unfoldable pub notification_event : IncidentState → Details → Option String
notification_event awaiting_approval details = some "approval_required"
notification_event resolved details = some "incident_resolved"
notification_event escalated details =
    some (if is_given details.error_code then "remediation_failed" else "incident_escalated")
notification_event _ details = none

-- The notification is queued outside of tests; a failure of the queue is swallowed.
unfoldable pub notify : Settings → IncidentState → Details → Case → Case
unfolding notification_event
notify settings target details c = elim (notification_event target details) [
  | none ↦ c
  | some event ↦
      if settings.app_env_is_test then c else record c { notifications = event ∷ c.notifications }
]

-- `capture_terminal_incident`
unfoldable pub remember : IncidentState → Case → Case
remember target c = if is_terminal target then record c { memories = target ∷ c.memories } else c

module _ {P : Platform} where
  -- The session goes over to the new incident's rows.
  unfoldable pub create_incident : NewIncident → Exec P (Unit {0})
  unfolding fresh_case timeline_row audit_row append_stream_event
  create_incident n = do
    modify (λ s. record s { live = fresh_case s.live.next_id n; opened = s.opened + 1 })
    on_rows (timeline_row "INCIDENT_CREATED" none detected n.actor n.actor_type)
    on_rows (append_stream_event "incident.created")
    on_rows (audit_row "INCIDENT_CREATED" n.actor n.actor_type none none none "SUCCEEDED")

  -- `change_incident_state`, part by part. The row of the incident, and the gauge.
  unfoldable pub set_state : IncidentState → Exec P (Unit {0})
  set_state target = do
    on_rows (set_incident (λ i. record i { state = target }))
    when (same_state target resolved)
        (do time ← utc_now; on_rows (set_incident (λ i. record i { resolved_at = some time })))
    when (is_terminal target) (modify (λ s. record s { closed = s.closed + 1 }))

  abbrev request_for : Settings → String → Details → Option ActionProposal → Exec P (Unit {0})
  request_for settings actor details none = pure tt
  request_for settings actor details (some proposal) = do
    ensure_runtime_approval settings proposal actor (or_text details.policy_reason details.reason)
    pure tt

  -- An approval is requested for the latest proposal of the incident.
  unfoldable pub request_approval_on :
      Settings → IncidentState → String → Details → Exec P (Unit {0})
  unfolding ensure_runtime_approval
  request_approval_on settings target actor details = do
    c ← rows
    when (same_state target awaiting_approval) (
        request_for settings actor details
          (find (λ (p : ActionProposal). p.incident_id == c.incident.id) c.proposals))

  -- What follows the check of the transition.
  unfoldable pub apply_change :
      Settings → IncidentState → IncidentState → String → ActorType → Details → Exec P (Unit {0})
  unfolding set_state record_change request_approval_on notify remember
  apply_change settings previous target actor actor_type details = do
    set_state target
    on_rows (record_change previous target actor actor_type)
    request_approval_on settings target actor details
    on_rows (notify settings target details)
    on_rows (remember target)

  unfoldable pub change_incident_state :
      Settings → IncidentState → String → ActorType → Details → Bool → Exec P (Unit {0})
  change_incident_state settings target actor actor_type details force = do
    c ← rows
    when (not (same_state c.incident.state target)) (do
      lift (if force then ok target else transition_incident c.incident.state target)
      apply_change settings c.incident.state target actor actor_type details)

  -- `resolve_incident`
  unfoldable pub resolve_incident :
      Settings → String → ActorType → String → ResolutionSource → Exec P (Unit {0})
  unfolding change_incident_state
  resolve_incident settings actor actor_type reason source = do
    c ← rows
    when (not (same_state c.incident.state resolved)) (do
      time ← utc_now
      on_rows (
          set_incident (λ i. record i { resolution_source = some source; resolved_at = some time }))
      change_incident_state settings resolved actor actor_type
          (record { policy_reason = none; reason = some reason; error_code = none }) true)

-- `value is not None and value != current`: the new value, if it is one.
abbrev changed : Option String → Option String → Option String
changed none current = none
changed (some t) none = some t
changed (some t) (some u) = if str_eq t u then none else some t

abbrev replaced {ℓ} : {A : Type ℓ} → Option A → A → A
replaced none a = a
replaced (some b) a = b

abbrev is_some {ℓ} : {A : Type ℓ} → Option A → Bool
is_some none = false
is_some (some a) = true

-- The fields that `update_incident` writes.
unfoldable pub edit_incident : Option String → Option String → Option String → Incident → Incident
edit_incident title summary severity i = record i {
  title = replaced (changed title (some i.title)) i.title;
  summary = elim (changed summary i.summary) [ none ↦ i.summary | some t ↦ some t ];
  severity = replaced (changed severity (some i.severity)) i.severity;
}

-- Whether `changes` is not empty.
unfoldable pub has_changes : Option String → Option String → Option String → Incident → Bool
has_changes title summary severity i =
    is_some (changed title (some i.title))
    || is_some (changed summary i.summary)
    || is_some (changed severity (some i.severity))

-- The timeline and audit rows of an update.
unfoldable pub record_update : String → ActorType → Case → Case
unfolding timeline_row audit_row
record_update actor actor_type c =
    audit_row "INCIDENT_UPDATED" actor actor_type none none none "SUCCEEDED"
      (timeline_row "INCIDENT_UPDATED" (some c.incident.state) c.incident.state actor actor_type c)

module _ {P : Platform} where
  abbrev move_to : Settings → Option IncidentState → String → ActorType → Exec P (Unit {0})
  move_to settings none actor actor_type = pure tt
  move_to settings (some target) actor actor_type =
      change_incident_state settings target actor actor_type
        (record {
          policy_reason = none;
          reason = some "Updated via incident update";
          error_code = none;
        })
        true

  -- `update_incident`. A target that is the present state is left alone by the change itself.
  unfoldable pub update_incident :
      Settings
      → Option String
      → Option String
      → Option String
      → Option IncidentState
      → String
      → ActorType
      → Exec P (Unit {0})
  unfolding change_incident_state edit_incident has_changes record_update
  update_incident settings title summary severity target actor actor_type = do
    c ← rows
    on_rows (set_incident (edit_incident title summary severity))
    move_to settings target actor actor_type
    when (has_changes title summary severity c.incident) (on_rows (record_update actor actor_type))

  -- `add_incident_evidence`
  unfoldable pub add_incident_evidence : EvidenceType → String → String → Exec P (Unit {0})
  unfolding append_stream_event audit_row
  add_incident_evidence evidence_type summary collected_by = do
    on_rows (λ c. record c {
      snapshots = record { evidence_type = evidence_type; summary = summary } ∷ c.snapshots;
    })
    on_rows (append_stream_event "incident.evidence_added")
    on_rows (audit_row "EVIDENCE_COLLECTED" collected_by user none none none "SUCCEEDED")
