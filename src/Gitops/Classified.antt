-- ===== src/Gitops/Classified.antt =====
-- When a deployment counts as reconciled with Git.
use cloud_ward.Prelude.{
  ◌≡◌, ◌≢◌, ◌↔◌, ◌||◌, not, refl, String, Bool, true, false, Option, none, some, List, [], ◌∷◌, all,
  str_eq, eq_iff, arith,
}
use cloud_ward.Platform.{DeploymentState}
use cloud_ward.Gitops.Drift.{
  ApiResource, ApiApplication, reconciled, or_default, resources_out_of_sync, application_state,
  is_empty, has_persistent_drift, contains_text, are_pinned, classify_drift, drift_snapshot,
}

-- Every resource is reported as synced.
abbrev pub AreSynced : List ApiResource → Type 0
AreSynced [] = Unit
AreSynced (r ∷ rs) = (r.status ≡ some "Synced") × AreSynced rs

-- There is an image, and every one is named by its digest.
abbrev pub ArePinned : List String → Type 0
ArePinned [] = Unit
ArePinned (image ∷ images) = (contains_text "@sha256:" image ≡ true) × ArePinned images

status_iff :
    (status : Option String)
    → (not (str_eq (or_default status "") "Synced") ≡ false) ↔ (status ≡ some "Synced")
status_iff none = (λ h. cc, λ h. cc)
status_iff (some text) = ground (arith, eq_iff text "Synced")

unknown_iff :
    (status : Option String)
    → (str_eq (or_default status "Unknown") "Synced" ≡ true) ↔ (status ≡ some "Synced")
unknown_iff none = (λ h. cc, λ h. cc)
unknown_iff (some text) = ground (arith, eq_iff text "Synced")

classify_drift_lem :
    (pinned drifted : Bool)
    → ((classify_drift pinned drifted ≡ reconciled) ↔ ((pinned ≡ true) × (drifted ≡ false)))
      × ((drifted || not pinned ≡ true) ↔ (classify_drift pinned drifted ≢ reconciled))
unfolding classify_drift
classify_drift_lem pinned drifted = ground arith

none_out_of_sync :
    (rs : List ApiResource) → (is_empty (resources_out_of_sync rs) ≡ true) ↔ AreSynced rs
unfolding resources_out_of_sync
none_out_of_sync [] = (λ _. tt, λ _. refl)
none_out_of_sync (r ∷ rs) = ground (arith, none_out_of_sync rs, status_iff r.status)

all_iff : (images : List String) → (all (contains_text "@sha256:") images ≡ true) ↔ ArePinned images
unfolding all
all_iff [] = (λ _. tt, λ _. refl)
all_iff (image ∷ images) = ground (arith, all_iff images)

are_pinned_iff :
    (images : List String) → (are_pinned images ≡ true) ↔ ((images ≢ []) × ArePinned images)
unfolding are_pinned
are_pinned_iff [] = (λ h. cc, λ h. absurd (h.0 refl))
are_pinned_iff (image ∷ images) =
    (λ h. (λ e. cc, (all_iff (image ∷ images)).0 h), λ h. (all_iff (image ∷ images)).1 h.1)

has_persistent_drift_iff :
    (name : String) (a : ApiApplication)
    → (has_persistent_drift (application_state name a) ≡ false)
      ↔ ((a.sync_status ≡ some "Synced") × AreSynced a.resources)
unfolding has_persistent_drift application_state
has_persistent_drift_iff name a =
    ground (arith, unknown_iff a.sync_status, none_out_of_sync a.resources)

-- A deployment is classified as RECONCILED exactly if it has images, each named by its digest, Argo
-- reports the application as synced, and each of its resources as synced; and the flag
-- persistent_drift is set exactly on every other classification.
pub drift_snapshot_iff :
    (environment name deployment_name : String) (a : ApiApplication) (d : DeploymentState)
    → let s = drift_snapshot environment (application_state name a) d deployment_name in
      ((s.classification ≡ reconciled) ↔ (
        (d.container_images ≢ [])
        × ArePinned d.container_images
        × (a.sync_status ≡ some "Synced")
        × AreSynced a.resources))
      × ((s.persistent_drift ≡ true) ↔ (s.classification ≢ reconciled))
unfolding drift_snapshot
drift_snapshot_iff environment name deployment_name a d =
    let pinned = are_pinned_iff d.container_images in
    let drifted = has_persistent_drift_iff name a in
    let (exact, flag) =
      classify_drift_lem (are_pinned d.container_images)
        (has_persistent_drift (application_state name a)) in
    (
      (
        λ h.
            let (p, q) = exact.0 h in
            let (images, all_pinned) = pinned.0 p in
            let (synced, resources) = drifted.0 q in (images, all_pinned, synced, resources),
        λ (images, all_pinned, synced, resources).
            exact.1 (pinned.1 (images, all_pinned), drifted.1 (synced, resources)),
      ),
      flag,
    )
