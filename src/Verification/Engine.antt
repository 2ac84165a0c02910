-- ===== src/Verification/Engine.antt =====
-- backend/app/verification/engine.py: `VerificationEngine`. Of a check, its type and its outcome are
-- kept; the expected and actual values are for display.
use cloud_ward.Prelude.{
  ℕ, zero, suc, ◌+◌, ◌-◌, min, String, Bool, Option, none, some, List, [], ◌∷◌, ◌==◌, leb, false,
  length, keep, all, if◌then◌else◌,
}
use cloud_ward.Platform.{Platform, DeploymentState, PodState}
use cloud_ward.Exec.{Exec, pure, outside, attempt, modify, ◌>>=◌, ◌>>◌}
use cloud_ward.Kubernetes.Executor.{get_deployment, get_pods, get_service_health}

pub data CheckType : Type 0 where
  ready_replicas pod_readiness health_endpoint : CheckType

pub record VerificationCheck : Type 0 where
  pub check_type : CheckType
  pub passed : Bool

pub record VerificationResult : Type 0 where
  pub success : Bool
  pub checks : List VerificationCheck
  pub attempts : ℕ

-- The arguments that `check_once` and `verify_until` share.
pub record VerificationTarget : Type 0 where
  pub namespace : String
  pub deployment : String
  pub label_selector : String
  pub expected_replicas : ℕ
  pub service_name : String
  pub health_path : String

-- `sum(1 for pod in pods if pod.ready)`
abbrev pub ready_pods : List PodState → ℕ
ready_pods pods = length (keep (λ (pod : PodState). pod.ready) pods)

abbrev check : CheckType → Bool → VerificationCheck
check check_type passed = record { check_type = check_type; passed = passed }

abbrev pub health_check : Option Bool → VerificationCheck
health_check none = check health_endpoint false
health_check (some healthy) = check health_endpoint healthy

abbrev pub failed_reads : VerificationCheck → List VerificationCheck
failed_reads last = check ready_replicas false ∷ check pod_readiness false ∷ last ∷ []

-- The checks of the two `try` blocks: what was read, or how far the reads came.
unfoldable pub read_checks :
    ℕ → Option DeploymentState → Option (List PodState) → Option Bool → List VerificationCheck
read_checks expected none pods health = failed_reads (health_check health)
read_checks expected (some deployment) none health =
    check ready_replicas (deployment.ready_replicas == expected)
    ∷ failed_reads (health_check health)
read_checks expected (some deployment) (some pods) health =
    check ready_replicas (deployment.ready_replicas == expected)
    ∷ check pod_readiness (ready_pods pods == expected)
    ∷ health_check health
    ∷ []

-- The result of one round of checks.
unfoldable pub result_of : List VerificationCheck → VerificationResult
result_of checks = record {
  success = all (λ (c : VerificationCheck). c.passed) checks;
  checks = checks;
  attempts = 1;
}

-- `last.model_copy(update={"attempts": attempts})`
abbrev pub with_attempts : VerificationResult → ℕ → VerificationResult
with_attempts last attempts = record last { attempts = attempts }

module _ {P : Platform} where
  -- The pods are read only after the deployment.
  abbrev pub pods_after :
      VerificationTarget → Option DeploymentState → Exec P (Option (List PodState))
  pods_after target none = pure none
  pods_after target (some deployment) = attempt (get_pods target.namespace target.label_selector)

  -- `check_once`
  unfoldable pub check_once : VerificationTarget → Exec P VerificationResult
  check_once target = do
    deployment ← attempt (get_deployment target.namespace target.deployment)
    pods ← pods_after target deployment
    health ← attempt (get_service_health target.namespace target.service_name target.health_path)
    pure (result_of (read_checks target.expected_replicas deployment pods health))

  abbrev sleep_for : ℕ → Exec P (Unit {0})
  sleep_for duration = modify (λ s. record s { world = P.sleep duration s.world })

  -- The end of a round: the result, or a pause and the rounds that follow.
  unfoldable pub after_check :
      ℕ
      → ℕ
      → ℕ
      → VerificationResult
      → Exec P (Option VerificationResult)
      → Exec P (Option VerificationResult)
  after_check deadline poll attempts last rest =
      if last.success then pure (some (with_attempts last attempts)) else do
        time ← outside P.monotonic
        if leb deadline time
            then pure (some (with_attempts last attempts))
            else do again ← outside P.monotonic; sleep_for (min poll (deadline - again)); rest

  -- The loop of `verify_until`, for at most the given number of rounds; `none` is a loop that would
  -- go on.
  unfoldable pub verify_rounds :
      ℕ → VerificationTarget → ℕ → ℕ → ℕ → Exec P (Option VerificationResult)
  verify_rounds zero target deadline poll attempts = pure none
  verify_rounds (suc fuel) target deadline poll attempts = check_once target >>= λ last.
      after_check deadline poll (attempts + 1) last
        (verify_rounds fuel target deadline poll (attempts + 1))

  -- `verify_until`
  unfoldable pub verify_until : ℕ → VerificationTarget → ℕ → ℕ → Exec P (Option VerificationResult)
  verify_until fuel target timeout poll = do
    start ← outside P.monotonic
    verify_rounds fuel target (start + timeout) poll 0
