-- ===== src/Kubernetes/Executor.antt =====
-- backend/app/kubernetes/executor.py: the reads, the guarded pod deletion and the bounded scale.
use cloud_ward.Prelude.{
  ℕ, String, Bool, true, false, not, ◌||◌, ◌&&◌, Option, none, some, List, [], ◌∷◌, str_eq, ltb,
  ◌==◌, has_text, if◌then◌else◌,
}
use cloud_ward.Errors.{
  cloud_ward_error, python_error, transport_error, ErrorCode, invalid_kubernetes_target,
  invalid_kubernetes_selector, kubernetes_api_error, kubernetes_namespace_denied,
  kubernetes_target_denied, kubernetes_target_healthy, kubernetes_action_failed,
  scale_bound_exceeded, stale_action_target, invalid_health_path,
}
use cloud_ward.Platform.{
  Platform, ApiDeployment, DeploymentState, PodState, HealthReply, other_payload, object_payload,
  KubernetesReply, answered, api_exception, transport_failed,
}
use cloud_ward.Exec.{Exec, pure, raise, outside, log_call, deleted_pod, scaled, ◌>>=◌, ◌>>◌}

abbrev pub cloud_error {ℓ} : {P : Platform} {A : Type ℓ} → ErrorCode → ℕ → Exec P A
cloud_error code status = raise (cloud_ward_error code status)

abbrev pub ensure : {P : Platform} → Bool → ErrorCode → ℕ → Exec P (Unit {0})
ensure test code status = if test then pure tt else cloud_error code status

abbrev pub or_error {ℓ} : {P : Platform} {A : Type ℓ} → Option A → ErrorCode → ℕ → Exec P A
or_error none code status = cloud_error code status
or_error (some a) code status = pure a

-- `except ApiException`: any other exception of the client is passed on.
abbrev pub or_api_error {ℓ} :
    {P : Platform} {A : Type ℓ} → KubernetesReply A → ErrorCode → ℕ → Exec P A
or_api_error (answered a) code status = pure a
or_api_error api_exception code status = cloud_error code status
or_api_error transport_failed code status = raise (python_error transport_error)

-- `labels.get(key)`
unfoldable pub label : String → List (String × String) → Option String
label key [] = none
label key ((k, v) ∷ rest) = if str_eq key k then some v else label key rest

abbrev pub is_text : Option String → String → Bool
is_text none text = false
is_text (some t) text = str_eq t text

-- `labels.get(DEMO_TARGET_LABEL) == "true"`
abbrev pub is_demo_target : List (String × String) → Bool
is_demo_target labels = is_text (label "cloudward.io/demo-target" labels) "true"

unfoldable pub is_healthy : HealthReply → Bool
is_healthy other_payload = true
is_healthy (object_payload status) =
    has_text status ("ok" ∷ "healthy" ∷ "ready" ∷ "up" ∷ "true" ∷ [])

-- `expected_current_replicas is None or current == expected_current_replicas`
abbrev pub is_expected : Option ℕ → ℕ → Bool
is_expected none current = true
is_expected (some n) current = current == n

module _ {P : Platform} where
  -- An ApiException is an unhealthy service.
  abbrev pub health_of : KubernetesReply HealthReply → Exec P Bool
  health_of (answered payload) = pure (is_healthy payload)
  health_of api_exception = pure false
  health_of transport_failed = raise (python_error transport_error)

  -- `_validate_name`
  unfoldable pub validate_name : String → Exec P (Unit {0})
  validate_name value = ensure (P.is_dns_label value) invalid_kubernetes_target 422

  -- `_require_namespace`; the allowed namespaces are the executor's configuration.
  unfoldable pub require_namespace : List String → String → Exec P (Unit {0})
  require_namespace allowed namespace = do
    validate_name namespace
    ensure (has_text namespace allowed) kubernetes_namespace_denied 403

  unfoldable pub get_deployment : String → String → Exec P DeploymentState
  unfolding validate_name
  get_deployment namespace name = do
    validate_name namespace
    validate_name name
    reply ← outside (P.read_deployment namespace name)
    deployment ← or_api_error reply kubernetes_api_error 502
    pure (record {
      namespace = namespace;
      name = name;
      desired_replicas = deployment.replicas;
      ready_replicas = deployment.ready_replicas;
      container_images = deployment.images;
    })

  unfoldable pub get_pods : String → String → Exec P (List PodState)
  unfolding validate_name
  get_pods namespace label_selector = do
    validate_name namespace
    ensure (P.is_safe_selector label_selector) invalid_kubernetes_selector 400
    reply ← outside (P.list_pods namespace label_selector)
    or_api_error reply kubernetes_api_error 502

  unfoldable pub get_pod_health : String → String → Exec P PodState
  unfolding validate_name
  get_pod_health namespace name = do
    validate_name namespace
    validate_name name
    reply ← outside (P.read_pod namespace name)
    or_api_error reply kubernetes_api_error 502

  unfoldable pub delete_pod : List String → String → String → Exec P (Unit {0})
  unfolding require_namespace validate_name get_pod_health
  delete_pod allowed namespace name = do
    require_namespace allowed namespace
    pod ← get_pod_health namespace name
    ensure (is_demo_target pod.labels) kubernetes_target_denied 403
    ensure (pod.controller_managed && is_text pod.controller_kind "ReplicaSet")
        kubernetes_target_denied 403
    ensure (not pod.ready) kubernetes_target_healthy 409
    log_call (deleted_pod namespace name)
    accepted ← outside (P.remove_pod namespace name)
    or_api_error accepted kubernetes_action_failed 502

  -- The checks of the deployment that was read, and the scale request.
  unfoldable pub patch_replicas :
      String → String → ℕ → Option ℕ → KubernetesReply ApiDeployment → Exec P (ℕ × ℕ)
  patch_replicas namespace name replicas expected_current reply = do
    deployment ← or_api_error reply kubernetes_api_error 502
    ensure (is_demo_target deployment.template_labels) kubernetes_target_denied 403
    ensure (is_expected expected_current deployment.replicas) stale_action_target 409
    log_call (scaled namespace name replicas)
    accepted ← outside (P.patch_scale namespace name replicas)
    or_api_error accepted kubernetes_action_failed 502
    pure (deployment.replicas, replicas)

  -- The replicas before and the replicas requested. `none` expects no current count.
  unfoldable pub scale_staging_deployment :
      List String → String → String → ℕ → ℕ → Option ℕ → Exec P (ℕ × ℕ)
  unfolding require_namespace validate_name
  scale_staging_deployment allowed namespace name replicas maximum_replicas expected_current = do
    require_namespace allowed namespace
    validate_name name
    ensure (str_eq namespace "cloudward-staging") kubernetes_target_denied 403
    ensure (not (ltb replicas 1 || ltb maximum_replicas 1 || ltb maximum_replicas replicas))
        scale_bound_exceeded 422
    reply ← outside (P.read_deployment namespace name)
    patch_replicas namespace name replicas expected_current reply

  -- `healthy`
  unfoldable pub get_service_health : String → String → String → Exec P Bool
  unfolding validate_name
  get_service_health namespace service_name path = do
    validate_name namespace
    validate_name service_name
    ensure (P.is_health_path (P.strip_slashes path)) invalid_health_path 400
    reply ← outside (P.proxy_health service_name namespace (P.strip_slashes path))
    health_of reply
