-- ===== src/Tests/Remediation.antt =====
-- A run of the pipeline on the demo deployment, whose only pod stays unready after each deletion.
use cloud_ward.Prelude.{inl, inr, ◌≡◌, ◌≢◌, ◌⊎◌, true, false, none, some, [], ◌∷◌, arith}
use cloud_ward.Errors.{ok, err, cloud_ward_error, python_error, transport_error, runbook_not_found}
use cloud_ward.Incidents.Machine.{resolved}
use cloud_ward.Actions.Registry.{delete_unhealthy_pod}
use cloud_ward.Store.Records.{system, Environment}
use cloud_ward.Verification.Engine.{VerificationResult}
use cloud_ward.Verification.Found.{IsFound}
use cloud_ward.Runbooks.Schema.{RunbookDocument, in_minutes}
use cloud_ward.Runbooks.Loader.{is_candidate, key_le, match_runbook}
use cloud_ward.Runbooks.Choice.{Each, IsIn, match_runbook-greatest}
use cloud_ward.Remediation.Plan.{verification_target, UnhealthyPodTarget, PipelineOutcome, Actor}
use cloud_ward.Remediation.Pipeline.{run}
use cloud_ward.Remediation.Holds.{IsReachable, IsAuthorized}
use cloud_ward.Remediation.Loop.{is_final}
use cloud_ward.Remediation.Outcome.{chosen_runbook, run-settles, run-IsAuthorized, run-verified}
use cloud_ward.Tests.World.{demo, demo_settings, granted}
use cloud_ward.Tests.Verification.{demo-IsClock}

abbrev robot : Actor
robot = record { actor = "cloudward"; actor_type = system }

abbrev checkout_pods : UnhealthyPodTarget
checkout_pods = record {
  namespace = "cloudward-staging";
  deployment = "checkout";
  service_name = "checkout";
  label_selector = "cloudward.io/demo-target=true";
  pod_name = none;
  expected_replicas = 3;
  environment = cloud_ward.Store.Records.staging;
  health_path = "health/ready";
}

abbrev pod_runbook : RunbookDocument
pod_runbook = record {
  id = "unhealthy-pod";
  version = 1;
  environments = cloud_ward.Runbooks.Schema.staging ∷ [];
  matches = record { incident_type = "reliability"; conditions = "pod_unhealthy" ∷ [] };
  preconditions = record { max_target_pods = 1; controller_managed = true };
  action = delete_unhealthy_pod;
  timeout = in_minutes 2;
  rollback_enabled = false;
}

abbrev newer : RunbookDocument
newer = record pod_runbook { version = 2 }

run-settles_example :
    let r = run {P = demo} demo_settings robot checkout_pods (pod_runbook ∷ []) "corr" granted in
    ((o : PipelineOutcome) × (r.0 ≡ ok o)
      × (is_final o.state ≡ true)
      × (r.1.live.incident.state ≡ o.state)
      × (r.1.committed ≡ r.1.live))
    ⊎ ((r.0 ≡ err (python_error transport_error))
        × (¬ IsReachable demo)
        × (r.1.committed.incident.state ≢ resolved))
run-settles_example =
    run-settles (λ w. w) demo_settings robot checkout_pods (pod_runbook ∷ []) "corr" granted
      demo-IsClock (omega arith) (omega arith)

demo-IsReachable : IsReachable demo
demo-IsReachable = record {
  deployments = λ a b w e. cc;
  pods = λ a b w e. cc;
  pod = λ a b w e. cc;
  removal = λ a b w e. cc;
  health = λ a b c w e. cc;
}

-- On a reachable platform the run returns an outcome.
demo_returns :
    (o : PipelineOutcome) × ((run {P = demo} demo_settings robot checkout_pods
        (pod_runbook ∷ [])
        "corr"
        granted).0
      ≡ ok o)
demo_returns =
    elim (run-settles {P = demo} (λ w. w) demo_settings robot checkout_pods (pod_runbook ∷ [])
      "corr" granted demo-IsClock (omega arith) (omega arith)) [
        | inl (o, e, final, told, saved) ↦ (o, e)
        | inr (e, lost, unresolved) ↦ absurd (lost demo-IsReachable)
      ]

run-IsAuthorized_example :
    IsAuthorized
      (chosen_runbook checkout_pods (pod_runbook ∷ []))
      granted.calls
      (run {P = demo} demo_settings robot checkout_pods (pod_runbook ∷ []) "corr" granted).1.calls
run-IsAuthorized_example =
    run-IsAuthorized (λ w. w) demo_settings robot checkout_pods (pod_runbook ∷ []) "corr" granted
      demo-IsClock (omega arith) (omega arith)

run-verified_example :
    let r = run {P = demo} demo_settings robot checkout_pods (pod_runbook ∷ []) "corr" granted in
    (r.1.committed.incident.state ≢ resolved)
    ⊎ ((o : PipelineOutcome) × (v : VerificationResult) × (r.0 ≡ ok o)
        × (o.state ≡ resolved)
        × (o.verification ≡ some v)
        × (v.success ≡ true)
        × IsFound demo (verification_target checkout_pods) v)
run-verified_example =
    run-verified (λ w. w) demo_settings robot checkout_pods (pod_runbook ∷ []) "corr" granted
      demo-IsClock (omega arith) (omega arith)

match_runbook-greatest_example :
    let fits = is_candidate "reliability" ("pod_unhealthy" ∷ []) "staging" in
    let r =
      match_runbook
        (pod_runbook ∷ newer ∷ [])
        "reliability"
        ("pod_unhealthy" ∷ [])
        "staging"
        granted in
    ((r ≡ (err (cloud_ward_error runbook_not_found 422), granted))
      × Each (λ q. fits q ≡ false) (pod_runbook ∷ newer ∷ []))
    ⊎ ((b : RunbookDocument) × (r ≡ (ok b, granted))
        × IsIn b (pod_runbook ∷ newer ∷ [])
        × (fits b ≡ true)
        × Each (λ q. fits q ≡ true → key_le q b ≡ true) (pod_runbook ∷ newer ∷ []))
match_runbook-greatest_example =
    match_runbook-greatest (pod_runbook ∷ newer ∷ []) "reliability" ("pod_unhealthy" ∷ []) "staging"
      granted
