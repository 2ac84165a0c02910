-- ===== src/Gitops/Drift.antt =====
-- backend/app/gitops/drift.py, and the reading of an Argo CD application in
-- backend/app/kubernetes/executor.py.
use Prim.Native.String.{String}
use Prim.Native.Char.{code}
use cloud_ward.Prelude.{
  ◌==◌, ◌&&◌, ◌||◌, not, Bool, true, false, Option, none, some, List, [], ◌∷◌, all, str_eq,
  if◌then◌else◌,
}
use cloud_ward.Errors.{kubernetes_client_unavailable, argocd_api_error}
use cloud_ward.Platform.{KubernetesReply, Platform, DeploymentState}
use cloud_ward.Exec.{Exec, outside, pure, ◌>>=◌, ◌>>◌}
use cloud_ward.Kubernetes.Executor.{ensure, or_api_error, validate_name, get_deployment}

-- The fields that are read of the API object, as texts; an absent or empty field is `none`.
pub record ApiResource : Type 0 where
  pub group : Option String
  pub kind : Option String
  pub namespace : Option String
  pub name : Option String
  pub status : Option String

pub record ApiApplication : Type 0 where
  pub target_revision : Option String
  pub revision : Option String
  pub sync_status : Option String
  pub health_status : Option String
  pub phase : Option String
  pub reconciled_at : Option String
  pub resources : List ApiResource

pub record OutOfSyncResource : Type 0 where
  pub group : String
  pub kind : String
  pub namespace : String
  pub name : String
  pub status : String

pub record ArgoApplicationState : Type 0 where
  pub name : String
  pub target_revision : String
  pub observed_revision : Option String
  pub sync_status : String
  pub health_status : String
  pub operation_phase : Option String
  pub reconciled_at : Option String
  pub out_of_sync_resources : List OutOfSyncResource

pub data DriftClassification : Type 0 where
  reconciled persistent_gitops_drift supply_chain_violation : DriftClassification

-- The fields that are copied from the application stand in one, `application`.
pub record GitOpsDriftSnapshot : Type 0 where
  pub environment : String
  pub application : ArgoApplicationState
  pub deployment : String
  pub deployed_images : List String
  pub all_images_digest_pinned : Bool
  pub classification : DriftClassification
  pub persistent_drift : Bool

-- `value or default`
abbrev pub or_default : Option String → String → String
or_default none default = default
or_default (some text) default = text

-- `resource.get("status") != "Synced"`
abbrev pub is_out_of_sync : ApiResource → Bool
is_out_of_sync r = not (str_eq (or_default r.status "") "Synced")

abbrev pub out_of_sync : ApiResource → OutOfSyncResource
out_of_sync r = record {
  group = or_default r.group "";
  kind = or_default r.kind "";
  namespace = or_default r.namespace "";
  name = or_default r.name "";
  status = or_default r.status "Unknown";
}

-- The resources that are not synced.
unfoldable pub resources_out_of_sync : List ApiResource → List OutOfSyncResource
resources_out_of_sync [] = []
resources_out_of_sync (r ∷ rs) =
    let rest = resources_out_of_sync rs in if is_out_of_sync r then out_of_sync r ∷ rest else rest

unfoldable pub application_state : String → ApiApplication → ArgoApplicationState
application_state name a = record {
  name = name;
  target_revision = or_default a.target_revision "";
  observed_revision = a.revision;
  sync_status = or_default a.sync_status "Unknown";
  health_status = or_default a.health_status "Unknown";
  operation_phase = a.phase;
  reconciled_at = a.reconciled_at;
  out_of_sync_resources = resources_out_of_sync a.resources;
}

abbrev pub is_empty {ℓ} : {A : Type ℓ} → List A → Bool
is_empty [] = true
is_empty (x ∷ xs) = false

-- `has_persistent_drift`
unfoldable pub has_persistent_drift : ArgoApplicationState → Bool
has_persistent_drift a =
    not (str_eq a.sync_status "Synced") || not (is_empty a.out_of_sync_resources)

-- `text.startswith(prefix)`
unfoldable pub starts_with : String → String → Bool
starts_with text String.[] = true
starts_with String.[] (String.◌∷◌ d prefix) = false
starts_with (String.◌∷◌ c text) (String.◌∷◌ d prefix) =
    let rest = starts_with text prefix in code c == code d && rest

-- `part in text`
unfoldable pub contains_text : String → String → Bool
contains_text part String.[] = starts_with String.[] part
contains_text part (String.◌∷◌ c text) =
    let later = contains_text part text in starts_with (String.◌∷◌ c text) part || later

-- `bool(images) and all("@sha256:" in image for image in images)`
unfoldable pub are_pinned : List String → Bool
are_pinned images = not (is_empty images) && all (contains_text "@sha256:") images

unfoldable pub classify_drift : Bool → Bool → DriftClassification
classify_drift pinned drifted =
    if not pinned
    then supply_chain_violation
    else if drifted
    then persistent_gitops_drift
    else reconciled

unfoldable pub drift_snapshot :
    String → ArgoApplicationState → DeploymentState → String → GitOpsDriftSnapshot
drift_snapshot environment application deployment deployment_name =
    let pinned = are_pinned deployment.container_images in
    let drifted = has_persistent_drift application in
    record {
      environment = environment;
      application = application;
      deployment = deployment_name;
      deployed_images = deployment.container_images;
      all_images_digest_pinned = pinned;
      classification = classify_drift pinned drifted;
      persistent_drift = drifted || not pinned;
    }

-- Whether there is a client for custom resources, and its read of an application.
module _ {P : Platform} (has_client : Bool)
    (read_application : String → P.World → KubernetesReply ApiApplication × P.World) where
  -- `get_argocd_application`
  unfoldable pub get_argocd_application : String → Exec P ArgoApplicationState
  get_argocd_application name = do
    validate_name name
    ensure has_client kubernetes_client_unavailable 503
    reply ← outside (read_application name)
    application ← or_api_error reply argocd_api_error 502
    pure (application_state name application)

  -- `observe_drift`
  unfoldable pub observe_drift : String → String → String → String → Exec P GitOpsDriftSnapshot
  observe_drift environment application_name namespace deployment_name = do
    application ← get_argocd_application application_name
    deployment ← get_deployment namespace deployment_name
    pure (drift_snapshot environment application deployment deployment_name)
