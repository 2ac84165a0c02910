-- ===== src/Alerts/Unique.antt =====
-- The unique key of the table of alerts.
use cloud_ward.Prelude.{
  ℕ, ◌≡◌, refl, ◌∙◌, inl, inr, Bool-cases, String, Bool, Option, none, some, List, [], ◌∷◌, str_eq,
  find, update_where, arith,
}
use cloud_ward.Store.Case.{Case}
use cloud_ward.Alerts.Inbox.{
  AlertStatus, NormalizedAlert, AlertRecord, Inbox, has_key_of, case_of, id_of, open_incident,
  refreshed, write_alert, note_on, deduplicate, accept, ingest_found, ingest_one, ingest_alerts,
}

-- No row has the source and the fingerprint of another one.
abbrev pub IsUnique : List AlertRecord → Type 0
IsUnique [] = Unit
IsUnique (r ∷ rs) = (find (has_key_of r.alert) rs ≡ none) × IsUnique rs

-- A change of a row that keeps its key.
abbrev pub IsKeeping : (AlertRecord → AlertRecord) → Type 0
IsKeeping f =
    (r : AlertRecord)
    → ((f r).alert.source ≡ r.alert.source) × ((f r).alert.fingerprint ≡ r.alert.fingerprint)

pub has_key_of-keeping :
    (f : AlertRecord → AlertRecord) (alert : NormalizedAlert) (r : AlertRecord)
    → IsKeeping f
    → has_key_of alert (f r) ≡ has_key_of alert r
unfolding has_key_of
has_key_of-keeping f alert r h = rw ((h r).0, (h r).1) refl

find-update_where-none :
    (f : AlertRecord → AlertRecord) (p : AlertRecord → Bool) (alert : NormalizedAlert)
    (rs : List AlertRecord)
    → IsKeeping f
    → find (has_key_of alert) rs ≡ none
    → find (has_key_of alert) (update_where p f rs) ≡ none
unfolding find update_where
find-update_where-none f p alert [] h k = refl
find-update_where-none f p alert (r ∷ rs) h k =
    ground (arith, has_key_of-keeping f alert r h, find-update_where-none f p alert rs h)

find-same_key :
    (a b : NormalizedAlert) (rs : List AlertRecord)
    → a.source ≡ b.source
    → a.fingerprint ≡ b.fingerprint
    → find (has_key_of a) rs ≡ find (has_key_of b) rs
unfolding has_key_of find
find-same_key a b [] h k = refl
find-same_key a b (r ∷ rs) h k = rw (find-same_key a b rs h k, h, k) refl

update_where-IsUnique :
    (f : AlertRecord → AlertRecord) (p : AlertRecord → Bool) (rs : List AlertRecord)
    → IsKeeping f
    → IsUnique rs
    → IsUnique (update_where p f rs)
unfolding update_where
update_where-IsUnique f p [] h k = tt
update_where-IsUnique f p (r ∷ rs) h (fresh, k) =
    let kept = find-update_where-none f p r.alert rs h fresh in
    elim (Bool-cases (p r)) [
      | inl hit ↦ rw hit (
        find-same_key (f r).alert r.alert (update_where p f rs) (h r).0 (h r).1 ∙ kept,
        update_where-IsUnique f p rs h k,
      )
      | inr miss ↦ rw miss (kept, update_where-IsUnique f p rs h k)
    ]

pub open_incident-alerts :
    (alert : NormalizedAlert) (correlation_id : String) (incident : Option Case) (inbox : Inbox)
    → (open_incident alert correlation_id incident inbox).2.alerts ≡ inbox.alerts
unfolding open_incident
open_incident-alerts alert correlation_id incident inbox = ground arith

note_on-alerts :
    (status : AlertStatus) (incident : Option Case) (inbox : Inbox)
    → (note_on status incident inbox).alerts ≡ inbox.alerts
note_on-alerts status none inbox = refl
note_on-alerts status (some c) inbox = refl

refreshed-IsKeeping :
    (alert : NormalizedAlert) (incident_id : Option ℕ) (time : ℕ)
    → IsKeeping (refreshed alert incident_id time)
refreshed-IsKeeping alert incident_id time r = (refl, refl)

-- What an accepted alert does to the table.
pub accept-alerts :
    (alert : NormalizedAlert) (correlation_id : String) (time : ℕ) (existing : Option AlertRecord)
    (inbox : Inbox)
    → let after = (open_incident alert correlation_id (case_of existing inbox.cases) inbox) in
      (accept alert correlation_id time existing inbox).1.alerts
      ≡ (write_alert alert (id_of after.0) time existing after.2).alerts
unfolding accept
accept-alerts alert correlation_id time existing inbox = note_on-alerts alert.status _ _

write_alert-IsUnique :
    (alert : NormalizedAlert) (incident_id : Option ℕ) (time : ℕ) (existing : Option AlertRecord)
    (inbox : Inbox)
    → find (has_key_of alert) inbox.alerts ≡ existing
    → IsUnique inbox.alerts
    → IsUnique (write_alert alert incident_id time existing inbox).alerts
unfolding write_alert
write_alert-IsUnique alert incident_id time none inbox h k = (h, k)
write_alert-IsUnique alert incident_id time (some r) inbox h k =
    update_where-IsUnique (refreshed alert incident_id time) (has_key_of alert) inbox.alerts
      (refreshed-IsKeeping alert incident_id time) k

accept-IsUnique :
    (alert : NormalizedAlert) (correlation_id : String) (time : ℕ) (existing : Option AlertRecord)
    (inbox : Inbox)
    → find (has_key_of alert) inbox.alerts ≡ existing
    → IsUnique inbox.alerts
    → IsUnique (accept alert correlation_id time existing inbox).1.alerts
accept-IsUnique alert correlation_id time existing inbox h k =
    let after = open_incident alert correlation_id (case_of existing inbox.cases) inbox in
    let same = open_incident-alerts alert correlation_id (case_of existing inbox.cases) inbox in
    rw (accept-alerts alert correlation_id time existing inbox)
      (write_alert-IsUnique alert (id_of after.0) time existing after.2 (rw same h) (rw same k))

ingest_found-IsUnique :
    (alert : NormalizedAlert) (correlation_id : String) (time : ℕ) (existing : Option AlertRecord)
    (inbox : Inbox)
    → find (has_key_of alert) inbox.alerts ≡ existing
    → IsUnique inbox.alerts
    → IsUnique (ingest_found alert correlation_id time existing inbox).1.alerts
unfolding deduplicate
ingest_found-IsUnique alert correlation_id time none inbox h k =
    accept-IsUnique alert correlation_id time none inbox h k
ingest_found-IsUnique alert correlation_id time (some r) inbox h k =
    elim (Bool-cases (str_eq r.alert.payload_digest alert.payload_digest)) [
      | inl repeated ↦
          rw repeated
            (update_where-IsUnique _ (has_key_of alert) inbox.alerts (λ q. (refl, refl)) k)
      | inr changed ↦ rw changed (accept-IsUnique alert correlation_id time (some r) inbox h k)
    ]

-- The ingestion of any alerts keeps the key of the table unique: no two rows have the same source
-- and fingerprint, if there were none before.
pub ingest_alerts-IsUnique :
    (alerts : List (NormalizedAlert × ℕ)) (correlation_id : String) (inbox : Inbox)
    → IsUnique inbox.alerts
    → IsUnique (ingest_alerts alerts correlation_id inbox).1.alerts
unfolding ingest_alerts ingest_one
ingest_alerts-IsUnique [] correlation_id inbox h = h
ingest_alerts-IsUnique ((alert, time) ∷ rest) correlation_id inbox h =
    ingest_alerts-IsUnique rest correlation_id _
      (ingest_found-IsUnique alert correlation_id time _ inbox refl h)
