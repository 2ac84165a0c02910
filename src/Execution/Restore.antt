-- ===== src/Execution/Restore.antt =====
-- What `RollbackCoordinator.rollback_scale` may request.
use cloud_ward.Prelude.{
  ℕ, ◌+◌, ◌≡◌, ◌⊎◌, ◌≤◌, inl, inr, refl, true, false, Option, none, some, ◌∷◌, arith, find, leb,
  Bool-cases, has_text, ◌==◌,
}
use cloud_ward.Errors.{
  Result, ok, err, cloud_ward_error, action_environment_denied, python_error, integrity_error,
}
use cloud_ward.Actions.Registry.{
  action_registry, scale_staging_deployment, typed, require_executable_action,
}
use cloud_ward.Store.Records.{
  ActionExecution, ActionProposal, environment_value, Environment, local, staging, production,
}
use cloud_ward.Settings.{Settings}
use cloud_ward.Platform.{Platform}
use cloud_ward.Exec.{Session, continue, scaled, outside}
use cloud_ward.Kubernetes.Executor
use cloud_ward.Kubernetes.Guards.{MayBeScaled, scale_staging_deployment-guarded}
use cloud_ward.Execution.Claim.{may_insert, insert_execution}
use cloud_ward.Execution.Rollback.{
  ScaleFacts, scale_facts, record_rollback, rollback_execution, rollback_proposed, run_rollback,
  rollback_scale,
}

-- The one request that a rollback may make, and what holds when it does.
abbrev pub IsRestoring : {P : Platform} → Settings → ℕ → ScaleFacts → Session P → Session P → Type 0
IsRestoring {P} settings maximum_replicas facts s t =
    (t.calls ≡ s.calls)
    ⊎ ((t.calls ≡ scaled facts.namespace facts.deployment facts.previous ∷ s.calls)
        × (has_text facts.namespace settings.allowed_namespaces ≡ true)
        × (facts.namespace ≡ "cloudward-staging")
        × (1 ≤ facts.previous)
        × (facts.previous ≤ maximum_replicas)
        × MayBeScaled (some facts.requested)
            (P.read_deployment facts.namespace facts.deployment s.world).0)

-- Recording an accepted rollback requests nothing.
after_scale :
    {P : Platform} (failed_execution rollback : ActionExecution) (facts : ScaleFacts)
    (q : Result (ℕ × ℕ) × Session P)
    → (continue q (record_rollback failed_execution facts rollback)).1.calls ≡ q.1.calls
unfolding record_rollback outside
after_scale failed_execution rollback facts (ok counts, t) = refl
after_scale failed_execution rollback facts (err e, t) = refl

-- The session in which the rollback's row stands.
abbrev pub with_row : {P : Platform} → ActionExecution → Session P → Session P
with_row rollback s = record s {
  live = record s.live { executions = rollback ∷ s.live.executions; next_id = s.live.next_id + 1 };
}

pub insert_execution-with_row :
    {P : Platform} (rollback : ActionExecution) (s : Session P)
    → may_insert rollback s.live.executions ≡ true
    → insert_execution rollback s ≡ (ok tt, with_row rollback s)
unfolding insert_execution
insert_execution-with_row rollback s h = rw h refl

insert_execution-refused :
    {P : Platform} (rollback : ActionExecution) (s : Session P)
    → may_insert rollback s.live.executions ≡ false
    → insert_execution rollback s ≡ (err (python_error integrity_error), s)
unfolding insert_execution
insert_execution-refused rollback s h = rw h refl

-- The scale request of a rollback.
abbrev request : {P : Platform} → Settings → ℕ → ScaleFacts → Session P → Result (ℕ × ℕ) × Session P
request settings maximum_replicas facts t =
    Executor.scale_staging_deployment settings.allowed_namespaces facts.namespace facts.deployment
      facts.previous maximum_replicas (some facts.requested) t

run_rollback-IsRestoring :
    {P : Platform} (settings : Settings) (maximum_replicas : ℕ)
    (failed_execution rollback : ActionExecution) (facts : ScaleFacts) (s : Session P)
    → IsRestoring settings maximum_replicas facts s
        (run_rollback settings maximum_replicas failed_execution facts rollback s).1
unfolding run_rollback
run_rollback-IsRestoring {P} settings maximum_replicas failed_execution rollback facts s =
    elim (Bool-cases (may_insert rollback s.live.executions)) [
      | inl insertable ↦
          let (_, _, requests) =
            scale_staging_deployment-guarded settings.allowed_namespaces facts.namespace
              facts.deployment facts.previous maximum_replicas (some facts.requested)
              (with_row rollback s) in
          rw (insert_execution-with_row rollback s insertable) (
            rw
              (after_scale failed_execution rollback facts
                (request settings maximum_replicas facts (with_row rollback s)))
              requests)
      | inr taken ↦ rw (insert_execution-refused rollback s taken) (inl refl)
    ]

rollback_proposed-IsRestoring :
    {P : Platform} (settings : Settings) (maximum_replicas : ℕ) (failed_execution : ActionExecution)
    (facts : ScaleFacts) (s : Session P) (found : Option ActionProposal)
    → let t = (rollback_proposed settings maximum_replicas failed_execution facts found s).1 in
      (t.calls ≡ s.calls)
      ⊎ (IsRestoring settings maximum_replicas facts s t × (failed_execution.attempt ≤ 2))
unfolding rollback_proposed
rollback_proposed-IsRestoring settings maximum_replicas failed_execution facts s none = inl refl
rollback_proposed-IsRestoring {P} settings maximum_replicas failed_execution facts s
      (some proposal) =
    elim (Bool-cases (leb 3 failed_execution.attempt)) [
      | inl late ↦ inl (rw late refl)
      | inr early ↦ inr (
        rw early (
            run_rollback-IsRestoring settings maximum_replicas failed_execution
              (rollback_execution s.live.next_id s.live.incident.id proposal failed_execution
                (P.rollback_key failed_execution.id facts.previous))
              facts s),
        ground arith,
      )
    ]

executable-cases :
    (environment : Environment)
    → let r =
        require_executable_action
          (typed scale_staging_deployment)
          (environment_value environment) in
      (r ≡ ok (action_registry scale_staging_deployment))
      ⊎ (r ≡ err (cloud_ward_error action_environment_denied 403))
unfolding require_executable_action has_text
executable-cases local = inl refl
executable-cases staging = inl refl
executable-cases production = inr refl

-- A rollback makes at most one request: the scale of the recorded deployment back to its recorded
-- replicas. It is made only in cloudward-staging, for 1 up to the given maximum of replicas, if the
-- deployment still has the replicas that the failed action requested, if the failed execution was
-- the first or the second attempt, and if the action may run in the incident's environment.
pub rollback_scale-IsRestoring :
    {P : Platform} (settings : Settings) (maximum_replicas : ℕ) (failed_execution : ActionExecution)
    (s : Session P)
    → let t = (rollback_scale settings maximum_replicas failed_execution s).1 in
      (t.calls ≡ s.calls)
      ⊎ (IsRestoring settings maximum_replicas (scale_facts failed_execution.result) s t
          × (failed_execution.attempt ≤ 2)
          × (require_executable_action
                (typed scale_staging_deployment)
                (environment_value s.live.incident.environment)
              ≡ ok (action_registry scale_staging_deployment)))
unfolding rollback_scale
rollback_scale-IsRestoring settings maximum_replicas failed_execution s = ground (
  arith,
  rollback_proposed-IsRestoring settings maximum_replicas failed_execution
      (scale_facts failed_execution.result) s
      (find (λ (p : ActionProposal). p.id == failed_execution.proposal_id) s.live.proposals),
  executable-cases s.live.incident.environment,
)
