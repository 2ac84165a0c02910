-- ===== src/Alerts/Explained.antt =====
-- The timelines of the incidents that alerts open and touch.
use cloud_ward.Prelude.{
  ℕ, refl, inl, inr, Bool-cases, ◌&&◌, String, Bool, Option, none, some, List, [], ◌∷◌, str_eq,
  update_where, arith,
}
use cloud_ward.Incidents.Service.{fresh_case, timeline_row, audit_row}
use cloud_ward.Incidents.Lifecycle.{IsExplained, same_state_refl}
use cloud_ward.Store.Case.{Case, append_stream_event}
use cloud_ward.Alerts.Inbox.{
  AlertStatus, NormalizedAlert, AlertRecord, Inbox, case_of, has_id, id_of, is_firing,
  needs_incident, created_case, alert_case, alert_incident, open_incident, write_alert, note_alert,
  note_on, deduplicate, accept, ingest_found, ingest_one, ingest_alerts,
}
use cloud_ward.Alerts.Tracked.{write_alert-cases}

-- Every timeline leads to the state of its incident.
abbrev pub AreExplained : List Case → Type 0
AreExplained [] = Unit
AreExplained (c ∷ cs) = IsExplained c × AreExplained cs

note_alert-IsExplained :
    (status : AlertStatus) (c : Case) → IsExplained c → IsExplained (note_alert status c)
unfolding note_alert audit_row timeline_row
note_alert-IsExplained status c h = rw (h, same_state_refl c.incident.state) refl

update_where-AreExplained :
    (status : AlertStatus) (p : Case → Bool) (cs : List Case)
    → AreExplained cs
    → AreExplained (update_where p (note_alert status) cs)
unfolding update_where
update_where-AreExplained status p [] h = tt
update_where-AreExplained status p (c ∷ cs) (h, k) = elim (Bool-cases (p c)) [
  | inl hit ↦ rw hit (note_alert-IsExplained status c h, update_where-AreExplained status p cs k)
  | inr miss ↦ rw miss (h, update_where-AreExplained status p cs k)
]

alert_case-IsExplained :
    (id : ℕ) (alert : NormalizedAlert) (correlation_id : String)
    → IsExplained (alert_case id alert correlation_id)
unfolding alert_case created_case fresh_case timeline_row audit_row append_stream_event
    alert_incident
alert_case-IsExplained id alert correlation_id = ground arith

open_incident-AreExplained :
    (alert : NormalizedAlert) (correlation_id : String) (incident : Option Case) (inbox : Inbox)
    → AreExplained inbox.cases
    → AreExplained (open_incident alert correlation_id incident inbox).2.cases
unfolding open_incident
open_incident-AreExplained alert correlation_id incident inbox h =
    elim (Bool-cases (is_firing alert.status && needs_incident incident)) [
      | inl opens ↦ rw opens (alert_case-IsExplained inbox.next_id alert correlation_id, h)
      | inr stays ↦ rw stays h
    ]

note_on-AreExplained :
    (status : AlertStatus) (incident : Option Case) (inbox : Inbox)
    → AreExplained inbox.cases
    → AreExplained (note_on status incident inbox).cases
note_on-AreExplained status none inbox h = h
note_on-AreExplained status (some c) inbox h =
    update_where-AreExplained status (has_id c.incident.id) inbox.cases h

accept-AreExplained :
    (alert : NormalizedAlert) (correlation_id : String) (time : ℕ) (existing : Option AlertRecord)
    (inbox : Inbox)
    → AreExplained inbox.cases
    → AreExplained (accept alert correlation_id time existing inbox).1.cases
unfolding accept
accept-AreExplained alert correlation_id time existing inbox h =
    let a = open_incident alert correlation_id (case_of existing inbox.cases) inbox in
    note_on-AreExplained alert.status a.0 (write_alert alert (id_of a.0) time existing a.2) (
      rw ((write_alert-cases alert (id_of a.0) time existing a.2).0)
        (open_incident-AreExplained alert correlation_id (case_of existing inbox.cases) inbox h))

ingest_found-AreExplained :
    (alert : NormalizedAlert) (correlation_id : String) (time : ℕ) (existing : Option AlertRecord)
    (inbox : Inbox)
    → AreExplained inbox.cases
    → AreExplained (ingest_found alert correlation_id time existing inbox).1.cases
unfolding deduplicate
ingest_found-AreExplained alert correlation_id time none inbox h =
    accept-AreExplained alert correlation_id time none inbox h
ingest_found-AreExplained alert correlation_id time (some r) inbox h =
    elim (Bool-cases (str_eq r.alert.payload_digest alert.payload_digest)) [
      | inl repeated ↦ rw repeated h
      | inr changed ↦ rw changed (accept-AreExplained alert correlation_id time (some r) inbox h)
    ]

-- The ingestion of any alerts keeps the timeline of every incident in step with its state: also the
-- events ALERT_RECEIVED and ALERT_RESOLVED, which it adds, start and end in the state that the
-- incident has.
pub ingest_alerts-AreExplained :
    (alerts : List (NormalizedAlert × ℕ)) (correlation_id : String) (inbox : Inbox)
    → AreExplained inbox.cases
    → AreExplained (ingest_alerts alerts correlation_id inbox).1.cases
unfolding ingest_alerts ingest_one
ingest_alerts-AreExplained [] correlation_id inbox h = h
ingest_alerts-AreExplained ((alert, time) ∷ rest) correlation_id inbox h =
    ingest_alerts-AreExplained rest correlation_id _
      (ingest_found-AreExplained alert correlation_id time _ inbox h)
