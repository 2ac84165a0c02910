-- ===== src/Alerts/Inbox.antt =====
-- backend/app/alerts/service.py: the ingestion of alerts. The tables of alerts and of incidents are
-- lists with the newest row first; a dictionary of labels is the list of its items.
use Prim.Native.String.{String}
use Prim.Native.Char.{code}
use cloud_ward.Prelude.{
  ℕ, ◌+◌, ◌==◌, ◌&&◌, Bool, true, false, Option, none, some, List, [], ◌∷◌, str_eq, find,
  update_where, leb, if◌then◌else◌,
}
use cloud_ward.Incidents.Machine.{detected, is_terminal}
use cloud_ward.Incidents.Service.{
  NewIncident, fresh_case, timeline_row, audit_row, set_incident, or_text,
}
use cloud_ward.Store.Records.{Environment, service}
use cloud_ward.Store.Case.{Case, append_stream_event}
use cloud_ward.Kubernetes.Executor.{label}

pub data AlertStatus : Type 0 where
  firing resolved : AlertStatus

pub record NormalizedAlert : Type 0 where
  pub source : String
  pub alert_name : String
  pub status : AlertStatus
  pub severity : String
  pub service_name : String
  pub environment : Environment
  pub namespace : Option String
  pub starts_at : ℕ
  pub ends_at : Option ℕ
  pub labels : List (String × String)
  pub annotations : List (String × String)
  pub fingerprint : String
  pub payload_digest : String

pub record AlertRecord : Type 0 where
  pub id : ℕ
  pub incident_id : Option ℕ
  pub alert : NormalizedAlert
  pub last_received_at : ℕ
  pub repeat_count : ℕ

pub record AlertIngestionResult : Type 0 where
  pub alert_id : ℕ
  pub incident_id : Option ℕ
  pub duplicate : Bool
  pub created_incident : Bool
  pub status : AlertStatus

-- The tables that an ingestion works on. `next_id` stands for the fresh identifiers, `opened` for
-- the increments of the gauge ACTIVE_INCIDENTS, and `deduplications` has the audit rows
-- ALERT_DEDUPLICATED, by their incident.
pub record Inbox : Type 0 where
  pub alerts : List AlertRecord
  pub cases : List Case
  pub deduplications : List (Option ℕ)
  pub opened : ℕ
  pub next_id : ℕ

-- ALERT_INCIDENT_TYPES, with the default of its lookup.
unfoldable pub alert_incident_type : String → String
alert_incident_type name =
    if str_eq name "HighHTTPErrorRate"
    then "reliability.bad-deployment"
    else if str_eq name "HighCPUSaturation"
    then "reliability.cpu-saturation"
    else if str_eq name "ContainerOOMKilled"
    then "reliability.memory-pressure"
    else if str_eq name "WorkloadUnavailable"
    then "reliability.platform-self-healing"
    else "reliability.prometheus-alert"

-- The code point of a character's lower case, for the letters A to Z.
abbrev lower : ℕ → ℕ
lower c = if leb 65 c && leb c 90 then c + 32 else c

-- Whether the lower case of a text is the given text, which has letters from a to z.
unfoldable pub equals_lower : String → String → Bool
equals_lower String.[] String.[] = true
equals_lower String.[] (String.◌∷◌ d t) = false
equals_lower (String.◌∷◌ c s) String.[] = false
equals_lower (String.◌∷◌ c s) (String.◌∷◌ d t) =
    let rest = equals_lower s t in lower (code c) == code d && rest

unfoldable pub append_text : String → String → String
append_text String.[] t = t
append_text (String.◌∷◌ c s) t = String.◌∷◌ c (append_text s t)

-- `source` and `fingerprint` of a row are those of the alert. They are unique in the table: a change
-- of the rows with the alert's key is a change of its one row.
unfoldable pub has_key_of : NormalizedAlert → AlertRecord → Bool
has_key_of alert r =
    str_eq r.alert.source alert.source && str_eq r.alert.fingerprint alert.fingerprint

abbrev pub is_firing : AlertStatus → Bool
is_firing firing = true
is_firing resolved = false

unfoldable pub alert_incident : NormalizedAlert → String → NewIncident
alert_incident alert correlation_id = record {
  correlation_id = correlation_id;
  incident_type = alert_incident_type alert.alert_name;
  title = append_text alert.alert_name (append_text " on " alert.service_name);
  environment = alert.environment;
  summary = or_text (label "summary" alert.annotations) (label "description" alert.annotations);
  service_id = none;
  cluster_id = none;
  actor = "alertmanager";
  actor_type = service;
}

-- The rows that `create_incident` makes.
unfoldable pub created_case : ℕ → NewIncident → Case
created_case id n = audit_row "INCIDENT_CREATED" n.actor n.actor_type none none none "SUCCEEDED" (
    append_stream_event "incident.created"
      (timeline_row "INCIDENT_CREATED" none detected n.actor n.actor_type (fresh_case id n)))

-- `queue_incident_notification`, for a critical alert.
abbrev pub notify_critical : String → Case → Case
notify_critical severity c =
    if equals_lower severity "critical"
    then record c { notifications = "critical_incident_detected" ∷ c.notifications }
    else c

unfoldable pub alert_case : ℕ → NormalizedAlert → String → Case
alert_case id alert correlation_id = notify_critical alert.severity (
    set_incident (λ i. record i { severity = alert.severity })
      (created_case id (alert_incident alert correlation_id)))

abbrev pub has_id : ℕ → Case → Bool
has_id id c = c.incident.id == id

-- `session.get(Incident, existing.incident_id)`
abbrev pub case_of : Option AlertRecord → List Case → Option Case
case_of none cases = none
case_of (some r) cases = elim r.incident_id [ none ↦ none | some id ↦ find (has_id id) cases ]

-- `incident is None or incident.state in TERMINAL_STATES`
abbrev pub needs_incident : Option Case → Bool
needs_incident none = true
needs_incident (some c) = is_terminal c.incident.state

abbrev pub id_of : Option Case → Option ℕ
id_of none = none
id_of (some c) = some c.incident.id

-- The new rows of an incident, if one is opened, and the incident of the alert.
unfoldable pub open_incident :
    NormalizedAlert → String → Option Case → Inbox → Option Case × Bool × Inbox
open_incident alert correlation_id incident inbox =
    if is_firing alert.status && needs_incident incident
    then (
      some (alert_case inbox.next_id alert correlation_id),
      true,
      record inbox {
        cases = alert_case inbox.next_id alert correlation_id ∷ inbox.cases;
        opened = inbox.opened + 1;
        next_id = inbox.next_id + 1;
      },
    )
    else (incident, false, inbox)

-- `incident.id if incident else existing.incident_id`
abbrev pub or_id : Option ℕ → Option ℕ → Option ℕ
or_id none b = b
or_id (some a) b = some a

-- A known row takes what the alert has changed; its source, fingerprint, name, service, environment,
-- namespace and start stay.
abbrev pub refreshed : NormalizedAlert → Option ℕ → ℕ → AlertRecord → AlertRecord
refreshed alert incident_id time r = record r {
  incident_id = or_id incident_id r.incident_id;
  alert = record r.alert {
    payload_digest = alert.payload_digest;
    status = alert.status;
    severity = alert.severity;
    labels = alert.labels;
    annotations = alert.annotations;
    ends_at = alert.ends_at;
  };
  last_received_at = time;
  repeat_count = r.repeat_count + 1;
}

-- The row of the alert, as it is written.
abbrev pub written : NormalizedAlert → Option ℕ → ℕ → ℕ → Option AlertRecord → AlertRecord
written alert incident_id time id none = record {
  id = id;
  incident_id = incident_id;
  alert = alert;
  last_received_at = time;
  repeat_count = 1;
}
written alert incident_id time id (some r) = refreshed alert incident_id time r

unfoldable pub write_alert : NormalizedAlert → Option ℕ → ℕ → Option AlertRecord → Inbox → Inbox
write_alert alert incident_id time none inbox = record inbox {
  alerts = written alert incident_id time inbox.next_id none ∷ inbox.alerts;
  next_id = inbox.next_id + 1;
}
write_alert alert incident_id time (some r) inbox = record inbox {
  alerts = update_where (has_key_of alert) (refreshed alert incident_id time) inbox.alerts;
}

abbrev pub event_type : AlertStatus → String
event_type firing = "ALERT_RECEIVED"
event_type resolved = "ALERT_RESOLVED"

-- The event on the timeline of the incident, and its audit row.
unfoldable pub note_alert : AlertStatus → Case → Case
note_alert status c =
    audit_row (event_type status) "alertmanager" service none none none "SUCCEEDED" (
      timeline_row (event_type status) (some c.incident.state) c.incident.state "alertmanager"
        service c)

abbrev pub note_on : AlertStatus → Option Case → Inbox → Inbox
note_on status none inbox = inbox
note_on status (some c) inbox = record inbox {
  cases = update_where (has_id c.incident.id) (note_alert status) inbox.cases;
}

abbrev pub ingestion_result : ℕ → Option ℕ → Bool → Bool → AlertStatus → AlertIngestionResult
ingestion_result alert_id incident_id duplicate created status = record {
  alert_id = alert_id;
  incident_id = incident_id;
  duplicate = duplicate;
  created_incident = created;
  status = status;
}

-- The same payload again.
unfoldable pub deduplicate :
    NormalizedAlert → ℕ → AlertRecord → Inbox → AlertIngestionResult × Inbox
deduplicate alert time r inbox = (
  ingestion_result r.id r.incident_id true false r.alert.status,
  record inbox {
    alerts =
        update_where (has_key_of alert)
          (λ q. record q { last_received_at = time; repeat_count = q.repeat_count + 1 })
          inbox.alerts;
    deduplications = r.incident_id ∷ inbox.deduplications;
  },
)

-- A new payload, with the incident that the row has so far.
unfoldable pub accept :
    NormalizedAlert → String → ℕ → Option AlertRecord → Inbox → AlertIngestionResult × Inbox
accept alert correlation_id time existing inbox =
    let (incident, created, after) =
      open_incident alert correlation_id (case_of existing inbox.cases) inbox in
    (
      ingestion_result (written alert (id_of incident) time after.next_id existing).id
          (id_of incident) false created alert.status,
      note_on alert.status incident (write_alert alert (id_of incident) time existing after),
    )

abbrev pub ingest_found :
    NormalizedAlert → String → ℕ → Option AlertRecord → Inbox → AlertIngestionResult × Inbox
ingest_found alert correlation_id time none inbox = accept alert correlation_id time none inbox
ingest_found alert correlation_id time (some r) inbox =
    if str_eq r.alert.payload_digest alert.payload_digest
    then deduplicate alert time r inbox
    else accept alert correlation_id time (some r) inbox

-- `_ingest_one`, at a time.
unfoldable pub ingest_one : NormalizedAlert → String → ℕ → Inbox → AlertIngestionResult × Inbox
ingest_one alert correlation_id time inbox =
    ingest_found alert correlation_id time (find (has_key_of alert) inbox.alerts) inbox

-- `ingest_alerts`; each alert comes with the time at which it is handled.
unfoldable pub ingest_alerts :
    List (NormalizedAlert × ℕ) → String → Inbox → List AlertIngestionResult × Inbox
ingest_alerts [] correlation_id inbox = ([], inbox)
ingest_alerts ((alert, time) ∷ rest) correlation_id inbox =
    let (result, after) = ingest_one alert correlation_id time inbox in
    let (results, end) = ingest_alerts rest correlation_id after in (result ∷ results, end)
