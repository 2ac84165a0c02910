-- ===== src/Tests/Gitops.antt =====
-- An application that is synced but for one resource.
use cloud_ward.Prelude.{◌≡◌, ◌≢◌, ◌↔◌, true, none, some, [], ◌∷◌}
use cloud_ward.Platform.{DeploymentState}
use cloud_ward.Gitops.Drift.{
  ApiResource, ApiApplication, application_state, drift_snapshot, reconciled,
}
use cloud_ward.Gitops.Classified.{AreSynced, ArePinned, drift_snapshot_iff}

abbrev service_resource : ApiResource
service_resource = record {
  group = none;
  kind = some "Service";
  namespace = some "cloudward-staging";
  name = some "checkout";
  status = some "OutOfSync";
}

abbrev checkout_application : ApiApplication
checkout_application = record {
  target_revision = some "main";
  revision = some "4f2a";
  sync_status = some "Synced";
  health_status = some "Healthy";
  phase = none;
  reconciled_at = none;
  resources = service_resource ∷ [];
}

abbrev pinned_deployment : DeploymentState
pinned_deployment = record {
  namespace = "cloudward-staging";
  name = "checkout";
  desired_replicas = 3;
  ready_replicas = 3;
  container_images = "checkout@sha256:ab12" ∷ [];
}

drift_snapshot_iff_example :
    let s =
      drift_snapshot "staging"
        (application_state "checkout" checkout_application)
        pinned_deployment
        "checkout" in
    ((s.classification ≡ reconciled) ↔ (
      (pinned_deployment.container_images ≢ [])
      × ArePinned pinned_deployment.container_images
      × (checkout_application.sync_status ≡ some "Synced")
      × AreSynced checkout_application.resources))
    × ((s.persistent_drift ≡ true) ↔ (s.classification ≢ reconciled))
drift_snapshot_iff_example =
    drift_snapshot_iff "staging" "checkout" "checkout" checkout_application pinned_deployment
