-- ===== src/Alerts/Latest.antt =====
-- The abstract view of the table of alerts: a map from a key to the digest of its latest payload.
use cloud_ward.Prelude.{
  ℕ, ◌≡◌, refl, ◌∙◌, ap, inl, inr, Bool-cases, ◌&&◌, String, Bool, true, false, Option, none, some,
  List, [], ◌∷◌, str_eq, eq_iff, find, find-update_where, update_where, arith, if◌then◌else◌,
}
use cloud_ward.Exec.{Session}
use cloud_ward.Platform.{Platform}
use cloud_ward.Incidents.Service.{NewIncident, create_incident}
use cloud_ward.Alerts.Inbox.{
  NormalizedAlert, AlertRecord, Inbox, created_case, has_key_of, case_of, id_of, open_incident,
  refreshed, write_alert, deduplicate, accept, ingest_found, ingest_one, ingest_alerts,
}
use cloud_ward.Alerts.Unique.{has_key_of-keeping, open_incident-alerts, accept-alerts}

-- A map from sources and fingerprints to digests.
abbrev pub Digests : Type 0
Digests = String → String → Option String

abbrev pub is_key : NormalizedAlert → String → String → Bool
is_key alert source fingerprint = str_eq alert.source source && str_eq alert.fingerprint fingerprint

abbrev pub digest_of : Option AlertRecord → Option String
digest_of none = none
digest_of (some r) = some r.alert.payload_digest

-- The map that a table stands for.
abbrev pub view : List AlertRecord → Digests
view rs source fingerprint = digest_of (find (λ r. is_key r.alert source fingerprint) rs)

abbrev pub put : NormalizedAlert → Digests → Digests
put alert digests source fingerprint =
    if is_key alert source fingerprint
    then some alert.payload_digest
    else digests source fingerprint

-- What an ingestion promises: the latest payload of each key.
abbrev pub latest : List (NormalizedAlert × ℕ) → Digests → Digests
latest [] digests = digests
latest ((alert, time) ∷ rest) digests = latest rest (put alert digests)

-- A change of the rows with the alert's key, to rows with that key and a digest.
abbrev IsWriting : NormalizedAlert → (AlertRecord → AlertRecord) → Type 0
IsWriting alert f =
    (r : AlertRecord)
    → ((f r).alert.source ≡ r.alert.source) × ((f r).alert.fingerprint ≡ r.alert.fingerprint)

key-same :
    (alert : NormalizedAlert) (source fingerprint : String)
    → is_key alert source fingerprint ≡ true
    → (source ≡ alert.source) × (fingerprint ≡ alert.fingerprint)
key-same alert source fingerprint h =
    ground (arith, eq_iff alert.source source, eq_iff alert.fingerprint fingerprint)

key-differs :
    (alert : NormalizedAlert) (r : AlertRecord) (source fingerprint : String)
    → is_key r.alert source fingerprint ≡ true
    → is_key alert source fingerprint ≡ false
    → has_key_of alert r ≡ false
unfolding has_key_of
key-differs alert r source fingerprint here away = ground (
  arith,
  eq_iff r.alert.source source,
  eq_iff r.alert.fingerprint fingerprint,
  eq_iff alert.source source,
  eq_iff alert.fingerprint fingerprint,
  eq_iff r.alert.source alert.source,
  eq_iff r.alert.fingerprint alert.fingerprint,
)

view-elsewhere :
    (alert : NormalizedAlert) (f : AlertRecord → AlertRecord) (source fingerprint : String)
    (rs : List AlertRecord)
    → IsWriting alert f
    → is_key alert source fingerprint ≡ false
    → view (update_where (has_key_of alert) f rs) source fingerprint ≡ view rs source fingerprint
unfolding find update_where has_key_of
view-elsewhere alert f source fingerprint [] h k = refl
view-elsewhere alert f source fingerprint (r ∷ rs) h k =
    let rest = view-elsewhere alert f source fingerprint rs h k in
    elim (Bool-cases (is_key r.alert source fingerprint)) [
      | inl here ↦
          let other = key-differs alert r source fingerprint here k in rw (other, here) refl
      | inr away ↦ elim (Bool-cases (has_key_of alert r)) [
        | inl hit ↦ rw (hit, (h r).0, (h r).1, away) rest
        | inr miss ↦ rw (miss, away) rest
      ]
    ]

view-here :
    (alert : NormalizedAlert) (source fingerprint : String) (rs : List AlertRecord)
    → is_key alert source fingerprint ≡ true
    → view rs source fingerprint ≡ digest_of (find (has_key_of alert) rs)
unfolding has_key_of
view-here alert source fingerprint rs h =
    let (s, f) = key-same alert source fingerprint h in rw (s, f) refl

-- A written row of the key has its latest digest, and no other key is touched.
view-update_where :
    (alert : NormalizedAlert) (f : AlertRecord → AlertRecord) (source fingerprint : String)
    (r : AlertRecord) (rs : List AlertRecord)
    → IsWriting alert f
    → find (has_key_of alert) rs ≡ some r
    → (f r).alert.payload_digest ≡ alert.payload_digest
    → view (update_where (has_key_of alert) f rs) source fingerprint
      ≡ put alert (view rs) source fingerprint
view-update_where alert f source fingerprint r rs h k same =
    elim (Bool-cases (is_key alert source fingerprint)) [
      | inl here ↦ rw here (
          view-here alert source fingerprint (update_where (has_key_of alert) f rs) here
          ∙ ap digest_of
              (find-update_where (has_key_of alert) f r rs (λ q. has_key_of-keeping f alert q h) k)
          ∙ ap some same)
      | inr away ↦ rw away (view-elsewhere alert f source fingerprint rs h away)
    ]

write_alert-view :
    (alert : NormalizedAlert) (incident_id : Option ℕ) (time : ℕ) (existing : Option AlertRecord)
    (inbox : Inbox) (source fingerprint : String)
    → find (has_key_of alert) inbox.alerts ≡ existing
    → view (write_alert alert incident_id time existing inbox).alerts source fingerprint
      ≡ put alert (view inbox.alerts) source fingerprint
unfolding write_alert find
write_alert-view alert incident_id time none inbox source fingerprint h =
    elim (Bool-cases (is_key alert source fingerprint)) [
      | inl here ↦ rw here refl
      | inr away ↦ rw away refl
    ]
write_alert-view alert incident_id time (some r) inbox source fingerprint h =
    view-update_where alert (refreshed alert incident_id time) source fingerprint r inbox.alerts
      (λ q. (refl, refl)) h refl

accept-view :
    (alert : NormalizedAlert) (correlation_id : String) (time : ℕ) (existing : Option AlertRecord)
    (inbox : Inbox) (source fingerprint : String)
    → find (has_key_of alert) inbox.alerts ≡ existing
    → view (accept alert correlation_id time existing inbox).1.alerts source fingerprint
      ≡ put alert (view inbox.alerts) source fingerprint
accept-view alert correlation_id time existing inbox source fingerprint h =
    let a = open_incident alert correlation_id (case_of existing inbox.cases) inbox in
    let same = open_incident-alerts alert correlation_id (case_of existing inbox.cases) inbox in
    rw (accept-alerts alert correlation_id time existing inbox) (
      write_alert-view alert (id_of a.0) time existing a.2 source fingerprint (rw same h)
      ∙ ap (λ rs. put alert (view rs) source fingerprint) same)

ingest_found-view :
    (alert : NormalizedAlert) (correlation_id : String) (time : ℕ) (existing : Option AlertRecord)
    (inbox : Inbox) (source fingerprint : String)
    → find (has_key_of alert) inbox.alerts ≡ existing
    → view (ingest_found alert correlation_id time existing inbox).1.alerts source fingerprint
      ≡ put alert (view inbox.alerts) source fingerprint
unfolding deduplicate
ingest_found-view alert correlation_id time none inbox source fingerprint h =
    accept-view alert correlation_id time none inbox source fingerprint h
ingest_found-view alert correlation_id time (some r) inbox source fingerprint h =
    elim (Bool-cases (str_eq r.alert.payload_digest alert.payload_digest)) [
      | inl repeated ↦ rw repeated (
          view-update_where alert _ source fingerprint r inbox.alerts (λ q. (refl, refl)) h
            ((eq_iff r.alert.payload_digest alert.payload_digest).0 repeated))
      | inr changed ↦
          rw changed (accept-view alert correlation_id time (some r) inbox source fingerprint h)
    ]

-- Two maps that agree before the payloads of some alerts agree after them.
latest-agree :
    (alerts : List (NormalizedAlert × ℕ)) (a b : Digests) (source fingerprint : String)
    → ((s f : String) → a s f ≡ b s f)
    → latest alerts a source fingerprint ≡ latest alerts b source fingerprint
latest-agree [] a b source fingerprint h = h source fingerprint
latest-agree ((alert, time) ∷ rest) a b source fingerprint h =
    latest-agree rest (put alert a) (put alert b) source fingerprint (λ s f. rw (h s f) refl)

-- Under the view of the table as a map from a key to the digest of its payload, the ingestion of
-- any alerts is the assignment of the latest digest to each key, in order: incidents, statuses,
-- counts, times and the difference of a duplicate and a change are all forgotten by it.
pub ingest_alerts-latest :
    (alerts : List (NormalizedAlert × ℕ)) (correlation_id : String) (inbox : Inbox)
    (source fingerprint : String)
    → view (ingest_alerts alerts correlation_id inbox).1.alerts source fingerprint
      ≡ latest alerts (view inbox.alerts) source fingerprint
unfolding ingest_alerts ingest_one
ingest_alerts-latest [] correlation_id inbox source fingerprint = refl
ingest_alerts-latest ((alert, time) ∷ rest) correlation_id inbox source fingerprint =
    ingest_alerts-latest rest correlation_id _ source fingerprint
    ∙ latest-agree rest _ (put alert (view inbox.alerts)) source fingerprint
        (λ s f. ingest_found-view alert correlation_id time _ inbox s f refl)

-- The rows of the incident that an alert opens are those that `create_incident` makes in a session
-- with the same next identifier.
pub create_incident-created_case :
    {P : Platform} (n : NewIncident) (s : Session P)
    → (create_incident n s).1.live ≡ created_case s.live.next_id n
unfolding create_incident created_case
create_incident-created_case n s = refl
