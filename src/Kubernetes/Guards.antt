-- ===== src/Kubernetes/Guards.antt =====
-- What the guarded requests of backend/app/kubernetes/executor.py require of their target.
use cloud_ward.Prelude.{
  ℕ, ◌≤◌, eq_iff, ◌≡◌, ◌⊎◌, inl, refl, String, true, false, List, ◌∷◌, arith, has_text, Option,
}
use cloud_ward.Platform.{
  Platform, PodState, ApiDeployment, KubernetesReply, answered, api_exception, transport_failed,
}
use cloud_ward.Exec.{Session, deleted_pod, scaled, outside}
use cloud_ward.Kubernetes.Executor.{
  is_demo_target, is_text, is_expected, delete_pod, patch_replicas, scale_staging_deployment,
}

-- What the read of a pod must return for its deletion to be requested.
abbrev pub MayBeDeleted : KubernetesReply PodState → Type 0
MayBeDeleted api_exception = ⊥
MayBeDeleted transport_failed = ⊥
MayBeDeleted (answered pod) =
    (is_demo_target pod.labels ≡ true)
    × (pod.controller_managed ≡ true)
    × (is_text pod.controller_kind "ReplicaSet" ≡ true)
    × (pod.ready ≡ false)

module _ {P : Platform} (allowed : List String) (namespace name : String) (s : Session P) where
  -- A call of `delete_pod` leaves the rows of the session as they are. It issues at most one
  -- request, the deletion of the named pod, and that only if the namespace is an allowed one and
  -- the pod, as this call reads it, is an unready demo target that a ReplicaSet controls.
  pub delete_pod-guarded :
      let t = (delete_pod allowed namespace name s).1 in
      (t.live ≡ s.live)
      × (t.committed ≡ s.committed)
      × ((t.calls ≡ s.calls)
          ⊎ ((t.calls ≡ deleted_pod namespace name ∷ s.calls)
              × (has_text namespace allowed ≡ true)
              × MayBeDeleted (P.read_pod namespace name s.world).0))
  unfolding delete_pod outside
  delete_pod-guarded = (ground arith, ground arith, ground arith)

-- What the read of a deployment must return for the scale request to be issued.
abbrev pub MayBeScaled : Option ℕ → KubernetesReply ApiDeployment → Type 0
MayBeScaled expected api_exception = ⊥
MayBeScaled expected transport_failed = ⊥
MayBeScaled expected (answered deployment) =
    (is_demo_target deployment.template_labels ≡ true)
    × (is_expected expected deployment.replicas ≡ true)

-- What a scale request does to a session, or that there was none.
abbrev IsRequested :
    {P : Platform}
    → String
    → String
    → ℕ
    → Option ℕ
    → KubernetesReply ApiDeployment
    → Session P
    → Session P
    → Type 0
IsRequested namespace name replicas expected reply s t =
    (t.live ≡ s.live)
    × (t.committed ≡ s.committed)
    × ((t.calls ≡ s.calls)
        ⊎ ((t.calls ≡ scaled namespace name replicas ∷ s.calls) × MayBeScaled expected reply))

patch_replicas-lem :
    {P : Platform} (namespace name : String) (replicas : ℕ) (expected : Option ℕ)
    (reply : KubernetesReply ApiDeployment) (s : Session P)
    → IsRequested namespace name replicas expected reply s
        (patch_replicas namespace name replicas expected reply s).1
unfolding patch_replicas outside
patch_replicas-lem namespace name replicas expected api_exception s = (refl, refl, inl refl)
patch_replicas-lem namespace name replicas expected transport_failed s = (refl, refl, inl refl)
patch_replicas-lem namespace name replicas expected (answered deployment) s = ground arith

-- A call of `scale_staging_deployment` leaves the rows of the session as they are. It issues at
-- most one request, and that only in the allowed namespace cloudward-staging, for a number of
-- replicas from 1 to the given maximum, and if the deployment, as this call reads it, is a demo
-- target with the expected replicas.
pub scale_staging_deployment-guarded :
    {P : Platform} (allowed : List String) (namespace name : String) (replicas maximum_replicas : ℕ)
    (expected : Option ℕ) (s : Session P)
    → let t =
        (scale_staging_deployment allowed namespace name replicas maximum_replicas expected s).1 in
      (t.live ≡ s.live)
      × (t.committed ≡ s.committed)
      × ((t.calls ≡ s.calls)
          ⊎ ((t.calls ≡ scaled namespace name replicas ∷ s.calls)
              × (has_text namespace allowed ≡ true)
              × (namespace ≡ "cloudward-staging")
              × (1 ≤ replicas)
              × (replicas ≤ maximum_replicas)
              × MayBeScaled expected (P.read_deployment namespace name s.world).0))
unfolding scale_staging_deployment outside
scale_staging_deployment-guarded {P} allowed namespace name replicas maximum_replicas expected s =
    ground (
      arith,
      eq_iff namespace "cloudward-staging",
      patch_replicas-lem namespace name replicas expected
          (P.read_deployment namespace name s.world).0
          (record s { world = (P.read_deployment namespace name s.world).1 }),
    )
