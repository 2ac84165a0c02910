-- ===== src/Verification/Clock.antt =====
-- The clock of the outside, and the reads of `check_once`: they change nothing but the world.
use cloud_ward.Prelude.{ℕ, ◌+◌, ◌≡◌, ◌≤◌, refl, ◌∙◌, String, Option, none, some, arith}
use cloud_ward.Errors.{ok}
use cloud_ward.Platform.{Platform, DeploymentState}
use cloud_ward.Exec.{Session, outside}
use cloud_ward.Kubernetes.Executor.{get_deployment, get_pods, get_service_health}
use cloud_ward.Verification.Engine.{VerificationResult, VerificationTarget, check_once}
use cloud_ward.Verification.Checks.{found, pods_read, check_once_iff}

-- A reading of the monotonic clock: no call of the outside turns it back, a reading lies between
-- the clock before and after it, and a sleep lasts at least as long as it was asked to.
pub record IsClock (P : Platform) (clock : P.World → ℕ) : Type 0 where
  pub read_after : (w : P.World) → clock w ≤ (P.monotonic w).0
  pub read_before : (w : P.World) → (P.monotonic w).0 ≤ clock (P.monotonic w).1
  pub sleeps : (d : ℕ) (w : P.World) → clock w + d ≤ clock (P.sleep d w)
  pub deployments : (a b : String) (w : P.World) → clock w ≤ clock (P.read_deployment a b w).1
  pub pods : (a b : String) (w : P.World) → clock w ≤ clock (P.list_pods a b w).1
  pub health : (a b c : String) (w : P.World) → clock w ≤ clock (P.proxy_health a b c w).1

-- Only the world has moved on.
pub record IsRead {P : Platform} (clock : P.World → ℕ) (s t : Session P) : Type 0 where
  pub same_live : t.live ≡ s.live
  pub same_committed : t.committed ≡ s.committed
  pub same_calls : t.calls ≡ s.calls
  pub later : clock s.world ≤ clock t.world

module _ {P : Platform} (clock : P.World → ℕ) where
  pub IsRead-refl : (s : Session P) → IsRead clock s s
  IsRead-refl s = record {
    same_live = refl;
    same_committed = refl;
    same_calls = refl;
    later = omega arith;
  }

  pub IsRead-trans : (s t u : Session P) → IsRead clock s t → IsRead clock t u → IsRead clock s u
  IsRead-trans s t u h k = record {
    same_live = k.same_live ∙ h.same_live;
    same_committed = k.same_committed ∙ h.same_committed;
    same_calls = k.same_calls ∙ h.same_calls;
    later = omega (arith, h.later, k.later);
  }

  module _ (moves : IsClock P clock) where
    pub get_deployment-IsRead :
        (namespace name : String) (s : Session P)
        → IsRead clock s (get_deployment namespace name s).1
    unfolding get_deployment outside
    get_deployment-IsRead namespace name s =
        ground (arith, moves.deployments namespace name s.world)

    pub get_pods-IsRead :
        (namespace selector : String) (s : Session P)
        → IsRead clock s (get_pods namespace selector s).1
    unfolding get_pods outside
    get_pods-IsRead namespace selector s = ground (arith, moves.pods namespace selector s.world)

    pub get_service_health-IsRead :
        (namespace name path : String) (s : Session P)
        → IsRead clock s (get_service_health namespace name path s).1
    unfolding get_service_health outside
    get_service_health-IsRead namespace name path s =
        ground (arith, moves.health name namespace (P.strip_slashes path) s.world)

    pub pods_read-IsRead :
        (target : VerificationTarget) (o : Option DeploymentState) (s : Session P)
        → IsRead clock s (pods_read target o s).1
    pods_read-IsRead target none s = IsRead-refl s
    pods_read-IsRead target (some d) s = get_pods-IsRead target.namespace target.label_selector s

    pub check_once-IsRead :
        (target : VerificationTarget) (s : Session P)
        → (v : VerificationResult) × (t : Session P) × (check_once target s ≡ (ok v, t))
          × IsRead clock s t
    check_once-IsRead target s =
        let (v, e, _) = check_once_iff target s in
        let d = get_deployment target.namespace target.deployment s in
        let p = pods_read target (found d) d.1 in
        let h = get_service_health target.namespace target.service_name target.health_path p.1 in
        let after_pods =
          IsRead-trans s d.1 p.1 (get_deployment-IsRead target.namespace target.deployment s)
            (pods_read-IsRead target (found d) d.1) in
        (
          v,
          h.1,
          e,
          IsRead-trans s p.1 h.1 after_pods (
              get_service_health-IsRead target.namespace target.service_name target.health_path
                p.1),
        )
