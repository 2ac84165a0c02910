-- ===== src/Evidence.antt =====
-- backend/app/evidence/collector.py: the state of a deployment and its pods.
use cloud_ward.Prelude.{String, not, List, keep}
use cloud_ward.Platform.{Platform, DeploymentState, PodState}
use cloud_ward.Exec.{Exec, pure, ◌>>=◌}
use cloud_ward.Kubernetes.Executor.{get_deployment, get_pods}

pub record KubernetesEvidence : Type 0 where
  pub deployment : DeploymentState
  pub pods : List PodState

-- `unhealthy_pods`
unfoldable pub unhealthy_pods : KubernetesEvidence → List PodState
unhealthy_pods evidence = keep (λ (pod : PodState). not pod.ready) evidence.pods

-- `collect_kubernetes_state`
unfoldable pub collect_kubernetes_state :
    {P : Platform} → String → String → String → Exec P KubernetesEvidence
collect_kubernetes_state namespace deployment label_selector = do
  deployment_state ← get_deployment namespace deployment
  pods ← get_pods namespace label_selector
  let evidence : KubernetesEvidence = record { deployment = deployment_state; pods = pods }
  pure evidence
