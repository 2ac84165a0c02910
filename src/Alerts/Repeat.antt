-- ===== src/Alerts/Repeat.antt =====
-- Repeated alerts, and the incident of a firing one.
use cloud_ward.Prelude.{
  ℕ, ◌+◌, ◌≡◌, refl, inl, inr, Bool-cases, String, Bool, true, false, Option, none, some, List, [],
  ◌∷◌, str_eq, eq_iff, find, find-update_where, update_where, length, arith,
}
use cloud_ward.Alerts.Inbox.{
  NormalizedAlert, AlertRecord, Inbox, has_key_of, case_of, id_of, open_incident, refreshed,
  written, write_alert, deduplicate, accept, ingest_found, ingest_one,
}
use cloud_ward.Alerts.Unique.{open_incident-alerts, accept-alerts}

str_eq_refl : (text : String) → str_eq text text ≡ true
str_eq_refl text = (eq_iff text text).1 refl

-- The table has a row of the alert with its payload.
abbrev IsKnown : NormalizedAlert → List AlertRecord → Type 0
IsKnown alert rs =
    (r : AlertRecord) × (find (has_key_of alert) rs ≡ some r)
    × (r.alert.payload_digest ≡ alert.payload_digest)

write_alert-IsKnown :
    (alert : NormalizedAlert) (incident_id : Option ℕ) (time : ℕ) (existing : Option AlertRecord)
    (inbox : Inbox)
    → find (has_key_of alert) inbox.alerts ≡ existing
    → IsKnown alert (write_alert alert incident_id time existing inbox).alerts
unfolding write_alert find has_key_of
write_alert-IsKnown alert incident_id time none inbox h = (
  written alert incident_id time inbox.next_id none,
  rw (str_eq_refl alert.source, str_eq_refl alert.fingerprint) refl,
  refl,
)
write_alert-IsKnown alert incident_id time (some r) inbox h = (
  refreshed alert incident_id time r,
  find-update_where (has_key_of alert) (refreshed alert incident_id time) r inbox.alerts (λ q. refl)
      h,
  refl,
)

deduplicate-alerts :
    (alert : NormalizedAlert) (time : ℕ) (r : AlertRecord) (inbox : Inbox)
    → find (has_key_of alert) inbox.alerts ≡ some r
    → r.alert.payload_digest ≡ alert.payload_digest
    → IsKnown alert (deduplicate alert time r inbox).1.alerts
unfolding deduplicate has_key_of
deduplicate-alerts alert time r inbox h k = (
  record r { last_received_at = time; repeat_count = r.repeat_count + 1 },
  find-update_where (has_key_of alert)
      (λ q. record q { last_received_at = time; repeat_count = q.repeat_count + 1 }) r inbox.alerts
      (λ q. refl) h,
  k,
)

accept-IsKnown :
    (alert : NormalizedAlert) (correlation_id : String) (time : ℕ) (existing : Option AlertRecord)
    (inbox : Inbox)
    → find (has_key_of alert) inbox.alerts ≡ existing
    → IsKnown alert (accept alert correlation_id time existing inbox).1.alerts
accept-IsKnown alert correlation_id time existing inbox h =
    let after = open_incident alert correlation_id (case_of existing inbox.cases) inbox in
    rw (accept-alerts alert correlation_id time existing inbox) (
      write_alert-IsKnown alert (id_of after.0) time existing after.2
        (rw (open_incident-alerts alert correlation_id (case_of existing inbox.cases) inbox) h))

ingest_found-IsKnown :
    (alert : NormalizedAlert) (correlation_id : String) (time : ℕ) (existing : Option AlertRecord)
    (inbox : Inbox)
    → find (has_key_of alert) inbox.alerts ≡ existing
    → IsKnown alert (ingest_found alert correlation_id time existing inbox).1.alerts
ingest_found-IsKnown alert correlation_id time none inbox h =
    accept-IsKnown alert correlation_id time none inbox h
ingest_found-IsKnown alert correlation_id time (some r) inbox h =
    elim (Bool-cases (str_eq r.alert.payload_digest alert.payload_digest)) [
      | inl repeated ↦ rw repeated (
          deduplicate-alerts alert time r inbox h
            ((eq_iff r.alert.payload_digest alert.payload_digest).0 repeated))
      | inr changed ↦ rw changed (accept-IsKnown alert correlation_id time (some r) inbox h)
    ]

ingest_one-IsKnown :
    (alert : NormalizedAlert) (correlation_id : String) (time : ℕ) (inbox : Inbox)
    → IsKnown alert (ingest_one alert correlation_id time inbox).1.alerts
unfolding ingest_one
ingest_one-IsKnown alert correlation_id time inbox =
    ingest_found-IsKnown alert correlation_id time _ inbox refl

length-update_where :
    (f : AlertRecord → AlertRecord) (p : AlertRecord → Bool) (rs : List AlertRecord)
    → length (update_where p f rs) ≡ length rs
unfolding update_where
length-update_where f p [] = refl
length-update_where f p (r ∷ rs) = omega (arith, length-update_where f p rs)

known-duplicate :
    (alert : NormalizedAlert) (correlation_id : String) (time : ℕ) (inbox : Inbox)
    → IsKnown alert inbox.alerts
    → let r = ingest_one alert correlation_id time inbox in
      (r.0.duplicate ≡ true)
      × (r.0.created_incident ≡ false)
      × (r.1.cases ≡ inbox.cases)
      × (r.1.opened ≡ inbox.opened)
      × (length r.1.alerts ≡ length inbox.alerts)
unfolding ingest_one deduplicate
known-duplicate alert correlation_id time inbox (r, found, same) =
    rw (found, same, str_eq_refl alert.payload_digest)
      (refl, refl, refl, refl, length-update_where _ (has_key_of alert) inbox.alerts)

-- An alert that is ingested again, at any time and for any correlation, is a duplicate: it opens no
-- incident, touches none, and adds no row to the table of alerts.
pub ingest_one-again :
    (alert : NormalizedAlert) (first_id second_id : String) (first_time second_time : ℕ)
    (inbox : Inbox)
    → let after = (ingest_one alert first_id first_time inbox).1 in
      let r = ingest_one alert second_id second_time after in
      (r.0.duplicate ≡ true)
      × (r.0.created_incident ≡ false)
      × (r.1.cases ≡ after.cases)
      × (r.1.opened ≡ after.opened)
      × (length r.1.alerts ≡ length after.alerts)
ingest_one-again alert first_id second_id first_time second_time inbox =
    known-duplicate alert second_id second_time _
      (ingest_one-IsKnown alert first_id first_time inbox)
