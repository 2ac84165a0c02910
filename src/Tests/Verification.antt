-- ===== src/Tests/Verification.antt =====
-- A verification of the demo deployment, which never becomes ready, and a rollback of its scale.
use cloud_ward.Prelude.{refl, any, false, suc, ◌+◌, ◌≡◌, ◌≤◌, ◌⊎◌, ◌↔◌, true, some, none, arith}
use cloud_ward.Errors.{ok}
use cloud_ward.Actions.Registry.{
  scale_staging_deployment, typed, action_registry, require_executable_action,
}
use cloud_ward.Store.Records.{
  human_action, approved, ActionExecution, scale_result, failed, environment_value,
}
use cloud_ward.Kubernetes.Executor.{get_deployment, get_service_health}
use cloud_ward.Verification.Engine.{
  VerificationResult, VerificationTarget, check_once, verify_until,
}
use cloud_ward.Verification.Checks.{WasHealthy, found, pods_read, check_once_iff}
use cloud_ward.Verification.Clock.{IsClock, IsRead}
use cloud_ward.Verification.Polling.{verify_until-returns}
use cloud_ward.Execution.Rollback.{scale_facts, rollback_scale}
use cloud_ward.Execution.Restore.{IsRestoring, rollback_scale-IsRestoring}
use cloud_ward.Exec.{Session}
use cloud_ward.Incidents.Machine.{verifying}
use cloud_ward.Verification.Outcome.{may_record, new_verification, persist_verification}
use cloud_ward.Verification.Settled.{IsSettledBy, persist_verification-settles}
use cloud_ward.Tests.World.{session_on, rows_in, demo, demo_settings, granted}

abbrev checkout : VerificationTarget
checkout = record {
  namespace = "cloudward-staging";
  deployment = "checkout";
  label_selector = "cloudward.io/demo-target=true";
  expected_replicas = 3;
  service_name = "checkout";
  health_path = "health/ready";
}

check_once_iff_example :
    let d = get_deployment {P = demo} "cloudward-staging" "checkout" granted in
    let p = pods_read checkout (found d) d.1 in
    let h = get_service_health "cloudward-staging" "checkout" "health/ready" p.1 in
    (v : VerificationResult) × (check_once checkout granted ≡ (ok v, h.1))
    × ((v.success ≡ true) ↔ WasHealthy 3 (found d) p.0 (found h))
check_once_iff_example = check_once_iff checkout granted

pub demo-IsClock : IsClock demo (λ w. w)
demo-IsClock = record {
  read_after = λ w. omega arith;
  read_before = λ w. omega arith;
  sleeps = λ d w. omega arith;
  deployments = λ a b w. omega arith;
  pods = λ a b w. omega arith;
  health = λ a b c w. omega arith;
}

verify_until-returns_example :
    let r = verify_until {P = demo} (suc 4) checkout 4 2 granted in
    (v : VerificationResult) × (r.0 ≡ ok (some v))
    × (1 ≤ v.attempts)
    × (v.attempts ≤ 4 + 1)
    × ((v.success ≡ true) ⊎ (5 + 4 ≤ r.1.world))
    × IsRead (λ w. w) granted r.1
verify_until-returns_example =
    verify_until-returns (λ w. w) checkout 4 2 granted demo-IsClock (omega arith)

-- A scale from 2 to the 3 replicas that the demo deployment has.
abbrev scaled_up : ActionExecution
scaled_up = record {
  id = 41;
  incident_id = 7;
  proposal_id = 11;
  action_type = scale_staging_deployment;
  attempt = 1;
  status = failed;
  result = scale_result "cloudward-staging" "checkout" 2 3;
  error_code = none;
  completed_at = some 4;
  idempotency_key = some 71;
  rollback_of_execution_id = none;
  rolled_back_at = none;
}

rollback_scale-IsRestoring_example :
    let t = (rollback_scale {P = demo} demo_settings 5 scaled_up granted).1 in
    (t.calls ≡ granted.calls)
    ⊎ (IsRestoring demo_settings 5 (scale_facts scaled_up.result) granted t
        × (scaled_up.attempt ≤ 2)
        × (require_executable_action
              (typed scale_staging_deployment)
              (environment_value granted.live.incident.environment)
            ≡ ok (action_registry scale_staging_deployment)))
rollback_scale-IsRestoring_example = rollback_scale-IsRestoring demo_settings 5 scaled_up granted

abbrev verified : Session demo
verified = session_on (rows_in verifying approved 40)

third_attempt_is_free : may_record 3 verified.live.verifications ≡ true
unfolding may_record any
third_attempt_is_free = refl

persist_verification-settles_example :
    IsSettledBy false 3 human_action verified
      (new_verification 31 none 3 false)
      (persist_verification demo_settings false 3 none human_action verified)
persist_verification-settles_example =
    persist_verification-settles demo_settings false 3 none human_action verified refl
      third_attempt_is_free
