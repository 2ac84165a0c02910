-- ===== src/Alerts/Tracked.antt =====
-- The incident of a firing alert.
use cloud_ward.Prelude.{
  ap, Bool, ℕ, ◌+◌, ◌==◌, ◌≡◌, ◌⊎◌, refl, sym, subst, ◌∙◌, inl, inr, Bool-cases, Option-cases,
  ==_iff, String, true, false, Option, none, some, List, ◌∷◌, str_eq, find, find-update_where,
  find-passes, arith, if◌then◌else◌,
}
use cloud_ward.Incidents.Machine.{detected, is_terminal}
use cloud_ward.Incidents.Service.{fresh_case, timeline_row, audit_row}
use cloud_ward.Store.Case.{Case, append_stream_event}
use cloud_ward.Alerts.Inbox.{
  AlertStatus, firing, NormalizedAlert, AlertRecord, AlertIngestionResult, Inbox, has_key_of,
  case_of, has_id, id_of, needs_incident, created_case, alert_case, alert_incident, open_incident,
  write_alert, note_alert, note_on, deduplicate, accept, ingest_found, ingest_one,
}

==_refl : (n : ℕ) → (n == n) ≡ true
==_refl n = ground arith

alert_case-incident :
    (id : ℕ) (alert : NormalizedAlert) (correlation_id : String)
    → let c = alert_case id alert correlation_id in
      (c.incident.id ≡ id) × (c.incident.state ≡ detected)
unfolding alert_case created_case fresh_case timeline_row audit_row append_stream_event
    alert_incident
alert_case-incident id alert correlation_id = ground arith

note_alert-incident :
    (status : AlertStatus) (c : Case) → (note_alert status c).incident ≡ c.incident
unfolding note_alert audit_row timeline_row
note_alert-incident status c = refl

pub write_alert-cases :
    (alert : NormalizedAlert) (incident_id : Option ℕ) (time : ℕ) (existing : Option AlertRecord)
    (inbox : Inbox)
    → let t = write_alert alert incident_id time existing inbox in
      (t.cases ≡ inbox.cases) × (t.opened ≡ inbox.opened)
unfolding write_alert
write_alert-cases alert incident_id time none inbox = (refl, refl)
write_alert-cases alert incident_id time (some r) inbox = (refl, refl)

-- The incident stands in the table, and is not settled.
abbrev pub IsOpen : Option ℕ → List Case → Type 0
IsOpen none cases = ⊥
IsOpen (some id) cases =
    (c : Case) × (find (has_id id) cases ≡ some c) × (is_terminal c.incident.state ≡ false)

note_on-IsOpen :
    (status : AlertStatus) (c : Case) (inbox : Inbox)
    → find (has_id c.incident.id) inbox.cases ≡ some c
    → is_terminal c.incident.state ≡ false
    → IsOpen (some c.incident.id) (note_on status (some c) inbox).cases
note_on-IsOpen status c inbox h active = (
  note_alert status c,
  find-update_where (has_id c.incident.id) (note_alert status) c inbox.cases
      (λ d. rw (note_alert-incident status d) refl) h,
  rw (note_alert-incident status c) active,
)

-- An incident that needs no successor is one of the table, and open.
abbrev IsActive : List Case → Option Case → Type 0
IsActive cases none = ⊥
IsActive cases (some c) =
    (find (has_id c.incident.id) cases ≡ some c) × (is_terminal c.incident.state ≡ false)

find-IsActive :
    (id : ℕ) (cases : List Case) (o : Option Case)
    → find (has_id id) cases ≡ o
    → needs_incident o ≡ false
    → IsActive cases o
find-IsActive id cases none h k = cc
find-IsActive id cases (some c) h k =
    let same = (==_iff c.incident.id id).0 (find-passes (has_id id) c cases h) in
    (subst (λ n. find (has_id n) cases ≡ some c) (sym same) h, k)

case_of-IsActive :
    (existing : Option AlertRecord) (cases : List Case)
    → needs_incident (case_of existing cases) ≡ false
    → IsActive cases (case_of existing cases)
case_of-IsActive none cases h = cc
case_of-IsActive (some r) cases h = elim (Option-cases r.incident_id) [
  | inl missing ↦ absurd (cc (rw missing at h))
  | inr (id, known) ↦ rw known (find-IsActive id cases _ refl (rw known at h))
]

-- The row is there, and it points to the incident.
abbrev pub PointsTo : Option AlertRecord → Option ℕ → Type 0
PointsTo existing id = (r : AlertRecord) × (existing ≡ some r) × (r.incident_id ≡ id)

-- A new incident with the next identifier, or the one that the alert's row has.
abbrev pub IsIncidentOf : Inbox → Option AlertRecord → Bool → Option ℕ → Type 0
IsIncidentOf inbox existing true id = id ≡ some inbox.next_id
IsIncidentOf inbox existing false id = PointsTo existing id

-- What an accepted alert leaves: its incident is open, and the gauge counts a new one.
abbrev IsTracked : Option AlertRecord → Inbox → AlertIngestionResult × Inbox → Type 0
IsTracked existing inbox r =
    IsOpen r.0.incident_id r.1.cases
    × IsIncidentOf inbox existing r.0.created_incident r.0.incident_id
    × (r.1.opened ≡ inbox.opened + (if r.0.created_incident then 1 else 0))

find-id_of :
    (id : ℕ) (cases : List Case) (o : Option Case)
    → find (has_id id) cases ≡ o
    → needs_incident o ≡ false
    → some id ≡ id_of o
find-id_of id cases none h k = cc
find-id_of id cases (some c) h k =
    ap some (sym ((==_iff c.incident.id id).0 (find-passes (has_id id) c cases h)))

case_of-PointsTo :
    (existing : Option AlertRecord) (cases : List Case)
    → needs_incident (case_of existing cases) ≡ false
    → PointsTo existing (id_of (case_of existing cases))
case_of-PointsTo none cases h = cc
case_of-PointsTo (some r) cases h = elim (Option-cases r.incident_id) [
  | inl missing ↦ absurd (cc (rw missing at h))
  | inr (id, known) ↦
      let found : some id ≡ id_of (case_of (some r) cases) =
        rw known (find-id_of id cases _ refl (rw known at h)) in
      (r, refl, known ∙ found)
]

continued-IsTracked :
    (alert : NormalizedAlert) (incident : Option Case) (time : ℕ) (existing : Option AlertRecord)
    (inbox : Inbox)
    → IsActive inbox.cases incident
    → IsOpen
        (id_of incident)
        (note_on alert.status incident
          (write_alert alert (id_of incident) time existing inbox)).cases
continued-IsTracked alert none time existing inbox h = absurd h
continued-IsTracked alert (some c) time existing inbox (found, active) =
    let (cases, _) = write_alert-cases alert (some c.incident.id) time existing inbox in
    note_on-IsOpen alert.status c (write_alert alert (some c.incident.id) time existing inbox)
      (rw cases found) active

note_on-opened :
    (status : AlertStatus) (incident : Option Case) (inbox : Inbox)
    → (note_on status incident inbox).opened ≡ inbox.opened
note_on-opened status none inbox = refl
note_on-opened status (some c) inbox = refl

opened-IsActive :
    (id : ℕ) (alert : NormalizedAlert) (correlation_id : String) (cases : List Case)
    → let c = alert_case id alert correlation_id in IsActive (c ∷ cases) (some c)
unfolding find
opened-IsActive id alert correlation_id cases =
    let (same, state) = alert_case-incident id alert correlation_id in
    (rw (same, ==_refl id) refl, rw state refl)

open_incident-IsActive :
    (alert : NormalizedAlert) (correlation_id : String) (incident : Option Case) (inbox : Inbox)
    → alert.status ≡ firing
    → (existing : Option AlertRecord)
    → (needs_incident incident ≡ false → IsActive inbox.cases incident)
    → (needs_incident incident ≡ false → PointsTo existing (id_of incident))
    → let a = open_incident alert correlation_id incident inbox in
      IsActive a.2.cases a.0
      × IsIncidentOf inbox existing a.1 (id_of a.0)
      × (a.2.opened ≡ inbox.opened + (if a.1 then 1 else 0))
unfolding open_incident alert_case alert_incident
open_incident-IsActive alert correlation_id incident inbox h existing k p =
    elim (Bool-cases (needs_incident incident)) [
      | inl needed ↦
          rw (h, needed)
            (
              opened-IsActive inbox.next_id alert correlation_id inbox.cases,
              ap some (alert_case-incident inbox.next_id alert correlation_id).0,
              refl,
            )
      | inr active ↦ rw (h, active) (k active, p active, omega arith)
    ]

accept-IsTracked :
    (alert : NormalizedAlert) (correlation_id : String) (time : ℕ) (existing : Option AlertRecord)
    (inbox : Inbox)
    → alert.status ≡ firing
    → IsTracked existing inbox (accept alert correlation_id time existing inbox)
unfolding accept
accept-IsTracked alert correlation_id time existing inbox h =
    let incident = case_of existing inbox.cases in
    let a = open_incident alert correlation_id incident inbox in
    let (active, bound, counted) =
      open_incident-IsActive alert correlation_id incident inbox h existing
        (case_of-IsActive existing inbox.cases) (case_of-PointsTo existing inbox.cases) in
    let (_, same) = write_alert-cases alert (id_of a.0) time existing a.2 in
    (
      continued-IsTracked alert a.0 time existing a.2 active,
      bound,
      note_on-opened alert.status a.0 _ ∙ same ∙ counted,
    )

ingest_found-IsTracked :
    (alert : NormalizedAlert) (correlation_id : String) (time : ℕ) (existing : Option AlertRecord)
    (inbox : Inbox)
    → alert.status ≡ firing
    → let r = ingest_found alert correlation_id time existing inbox in
      ((r.0.duplicate ≡ true) × (r.0.created_incident ≡ false) × (r.1.opened ≡ inbox.opened))
      ⊎ IsTracked existing inbox r
unfolding deduplicate
ingest_found-IsTracked alert correlation_id time none inbox h =
    inr (accept-IsTracked alert correlation_id time none inbox h)
ingest_found-IsTracked alert correlation_id time (some r) inbox h =
    elim (Bool-cases (str_eq r.alert.payload_digest alert.payload_digest)) [
      | inl repeated ↦ rw repeated (inl (refl, refl, refl))
      | inr changed ↦ rw changed (inr (accept-IsTracked alert correlation_id time (some r) inbox h))
    ]

-- A firing alert is a duplicate and opens nothing, or it ends with an incident that stands in the
-- table and is not settled: a new one with the next identifier, if the result says that an incident
-- was created, and else the one that the alert's row has named before. The gauge ACTIVE_INCIDENTS is
-- taken up once exactly if an incident was created.
pub ingest_one-IsTracked :
    (alert : NormalizedAlert) (correlation_id : String) (time : ℕ) (inbox : Inbox)
    → alert.status ≡ firing
    → let r = ingest_one alert correlation_id time inbox in
      ((r.0.duplicate ≡ true) × (r.0.created_incident ≡ false) × (r.1.opened ≡ inbox.opened))
      ⊎ (IsOpen r.0.incident_id r.1.cases
          × IsIncidentOf inbox
              (find (has_key_of alert) inbox.alerts)
              r.0.created_incident
              r.0.incident_id
          × (r.1.opened ≡ inbox.opened + (if r.0.created_incident then 1 else 0)))
unfolding ingest_one
ingest_one-IsTracked alert correlation_id time inbox h =
    ingest_found-IsTracked alert correlation_id time (find (has_key_of alert) inbox.alerts) inbox h
