-- ===== src/Tests/Alerts.antt =====
-- The alert of an unavailable workload, which fires twice into an empty inbox.
use cloud_ward.Prelude.{
  find, ◌+◌, ◌≡◌, ◌⊎◌, refl, true, false, none, some, [], ◌∷◌, length, if◌then◌else◌,
}
use cloud_ward.Store.Records.{staging}
use cloud_ward.Alerts.Inbox.{firing, NormalizedAlert, Inbox, has_key_of, ingest_one, ingest_alerts}
use cloud_ward.Alerts.Unique.{IsUnique, ingest_alerts-IsUnique}
use cloud_ward.Alerts.Repeat.{ingest_one-again}
use cloud_ward.Alerts.Explained.{AreExplained, ingest_alerts-AreExplained}
use cloud_ward.Alerts.Latest.{view, latest, ingest_alerts-latest}
use cloud_ward.Alerts.Tracked.{IsOpen, IsIncidentOf, ingest_one-IsTracked}

abbrev unavailable : NormalizedAlert
unavailable = record {
  source = "prometheus";
  alert_name = "WorkloadUnavailable";
  status = firing;
  severity = "Critical";
  service_name = "checkout";
  environment = staging;
  namespace = some "cloudward-staging";
  starts_at = 3;
  ends_at = none;
  labels = ("service", "checkout") ∷ [];
  annotations = ("summary", "No replica is available") ∷ [];
  fingerprint = "f1";
  payload_digest = "d1";
}

abbrev quiet : Inbox
quiet = record { alerts = []; cases = []; deduplications = []; opened = 0; next_id = 1 }

ingest_alerts-IsUnique_example :
    IsUnique
      (ingest_alerts
        ((unavailable, 4) ∷ (record unavailable { payload_digest = "d2" }, 5) ∷ [])
        "corr"
        quiet).1.alerts
ingest_alerts-IsUnique_example =
    ingest_alerts-IsUnique
      ((unavailable, 4) ∷ (record unavailable { payload_digest = "d2" }, 5) ∷ []) "corr" quiet tt

ingest_one-again_example :
    let after = (ingest_one unavailable "corr" 4 quiet).1 in
    let r = ingest_one unavailable "other" 5 after in
    (r.0.duplicate ≡ true)
    × (r.0.created_incident ≡ false)
    × (r.1.cases ≡ after.cases)
    × (r.1.opened ≡ after.opened)
    × (length r.1.alerts ≡ length after.alerts)
ingest_one-again_example = ingest_one-again unavailable "corr" "other" 4 5 quiet

ingest_one-IsTracked_example :
    let r = ingest_one unavailable "corr" 4 quiet in
    ((r.0.duplicate ≡ true) × (r.0.created_incident ≡ false) × (r.1.opened ≡ 0))
    ⊎ (IsOpen r.0.incident_id r.1.cases
        × IsIncidentOf quiet (find (has_key_of unavailable) []) r.0.created_incident r.0.incident_id
        × (r.1.opened ≡ 0 + (if r.0.created_incident then 1 else 0)))
ingest_one-IsTracked_example = ingest_one-IsTracked unavailable "corr" 4 quiet refl

ingest_alerts-AreExplained_example :
    AreExplained
      (ingest_alerts
        ((unavailable, 4) ∷ (record unavailable { payload_digest = "d2" }, 5) ∷ [])
        "corr"
        quiet).1.cases
ingest_alerts-AreExplained_example =
    ingest_alerts-AreExplained
      ((unavailable, 4) ∷ (record unavailable { payload_digest = "d2" }, 5) ∷ []) "corr" quiet tt

ingest_alerts-latest_example :
    view
      (ingest_alerts
        ((unavailable, 4) ∷ (record unavailable { payload_digest = "d2" }, 5) ∷ [])
        "corr"
        quiet).1.alerts
      "prometheus"
      "f1"
    ≡ latest
        ((unavailable, 4) ∷ (record unavailable { payload_digest = "d2" }, 5) ∷ [])
        (view quiet.alerts)
        "prometheus"
        "f1"
ingest_alerts-latest_example =
    ingest_alerts-latest ((unavailable, 4) ∷ (record unavailable { payload_digest = "d2" }, 5) ∷ [])
      "corr" quiet "prometheus" "f1"
