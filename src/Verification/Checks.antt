-- ===== src/Verification/Checks.antt =====
-- What one round of `VerificationEngine.check_once` reads, and when it succeeds.
use cloud_ward.Prelude.{ℕ, ◌≡◌, ◌↔◌, refl, Bool, true, false, Option, none, some, List, arith, all}
use cloud_ward.Errors.{Result, ok, err}
use cloud_ward.Platform.{Platform, DeploymentState, PodState}
use cloud_ward.Exec.{Session, attempt, caught}
use cloud_ward.Kubernetes.Executor.{get_deployment, get_pods, get_service_health}
use cloud_ward.Verification.Engine.{
  VerificationResult, VerificationTarget, VerificationCheck, ready_pods, read_checks, result_of,
  pods_after, check_once,
}

-- What an attempt found; `none` is a raise.
abbrev pub found {ℓ} : {P : Platform} {A : Type ℓ} → Result A × Session P → Option A
found (ok a, s) = some a
found (err e, s) = none

caught-found {ℓ} :
    {P : Platform} {A : Type ℓ} (q : Result A × Session P) → caught q ≡ (ok (found q), q.1)
caught-found (ok a, s) = refl
caught-found (err e, s) = refl

-- The pods that a round reads.
abbrev pub pods_read :
    {P : Platform}
    → VerificationTarget
    → Option DeploymentState
    → Session P
    → Option (List PodState) × Session P
pods_read target none s = (none, s)
pods_read target (some deployment) s = (
  found (get_pods target.namespace target.label_selector s),
  (get_pods target.namespace target.label_selector s).1,
)

pods_after-lem :
    {P : Platform} (target : VerificationTarget) (o : Option DeploymentState) (s : Session P)
    → pods_after target o s ≡ (ok (pods_read target o s).0, (pods_read target o s).1)
unfolding attempt
pods_after-lem target none s = refl
pods_after-lem target (some deployment) s =
    caught-found (get_pods target.namespace target.label_selector s)

-- All three reads were answered as expected.
abbrev pub WasHealthy : ℕ → Option DeploymentState → Option (List PodState) → Option Bool → Type 0
WasHealthy expected deployment pods health =
    (d : DeploymentState) × (ps : List PodState) × (deployment ≡ some d)
    × (pods ≡ some ps)
    × (d.ready_replicas ≡ expected)
    × (ready_pods ps ≡ expected)
    × (health ≡ some true)

all_passed :
    (expected : ℕ) (deployment : Option DeploymentState) (pods : Option (List PodState))
    (health : Option Bool)
    → (all (λ (c : VerificationCheck). c.passed) (read_checks expected deployment pods health)
        ≡ true)
      ↔ WasHealthy expected deployment pods health
unfolding all read_checks
all_passed expected (some d) (some ps) (some true) =
    (λ h. (d, ps, refl, refl, ground arith, ground arith, refl), λ w. ground arith)
all_passed expected none pods health = ground arith
all_passed expected (some d) none health = ground arith
all_passed expected (some d) (some ps) none = ground arith
all_passed expected (some d) (some ps) (some false) = ground arith

-- A round of checks raises nothing, whatever the reads raise. It succeeds exactly if the deployment
-- was read with the expected number of ready replicas, then the pods with the expected number of
-- ready pods, and then the health of the service as healthy; each read sees the world after the
-- one before it.
pub check_once_iff :
    {P : Platform} (target : VerificationTarget) (s : Session P)
    → let d = get_deployment target.namespace target.deployment s in
      let p = pods_read target (found d) d.1 in
      let h = get_service_health target.namespace target.service_name target.health_path p.1 in
      (v : VerificationResult) × (check_once target s ≡ (ok v, h.1))
      × ((v.success ≡ true) ↔ WasHealthy target.expected_replicas (found d) p.0 (found h))
unfolding check_once attempt result_of
check_once_iff target s =
    let d = get_deployment target.namespace target.deployment s in
    let p = pods_read target (found d) d.1 in
    let h = get_service_health target.namespace target.service_name target.health_path p.1 in
    (
      result_of (read_checks target.expected_replicas (found d) p.0 (found h)),
      rw (caught-found d, pods_after-lem target (found d) d.1, caught-found h) refl,
      all_passed target.expected_replicas (found d) p.0 (found h),
    )
