-- ===== src/Remediation/Loop.antt =====
-- The rounds of the pipeline: what each keeps true, and that an outcome is settled and committed.
use cloud_ward.Prelude.{
  ℕ, zero, suc, ◌+◌, ◌≡◌, ◌≤◌, ◌<◌, ◌||◌, ltb, ap, refl, Bool, true, Option, none, some, arith,
}
use cloud_ward.Incidents.Machine.{
  IncidentState, executing, resolved, escalated, awaiting_approval, is_terminal, same_state,
}
use cloud_ward.Incidents.Service.{no_details, audit_row}
use cloud_ward.Store.Records.{succeeded, failed}
use cloud_ward.Store.Case.{set_proposal_status, set_runbook_status}
use cloud_ward.Settings.{Settings}
use cloud_ward.Platform.{Platform, PodState, PolicyResult}
use cloud_ward.Exec.{Exec, Session, pure, on_rows}
use cloud_ward.Evidence.{unhealthy_pods, collect_kubernetes_state}
use cloud_ward.Verification.Clock.{IsClock}
use cloud_ward.Verification.Engine.{VerificationResult, verify_until}
use cloud_ward.Verification.Found.{IsFound, verify_until-IsFound}
use cloud_ward.Verification.Polling.{verify_until-returns}
use cloud_ward.Remediation.Plan.{
  UnhealthyPodTarget, PipelineOutcome, Actor, Plan, verification_target, add_snapshot, change,
  ask_policy,
}
use cloud_ward.Remediation.Rounds.{
  single, round_timeout, execute_round, verify_round, resolve_round, give_up, authorize_retry,
  prepare_retry, next_pod, continue_round, run_rounds,
}
use cloud_ward.Remediation.Holds.{
  Scope, IsAuthorized, IsGood, Holds, Holds-continue, Holds-ok, Holds-map, Holds-if, IsGood-same,
}
use cloud_ward.Remediation.Steps.{change-Holds, change_resolved-Holds, collect-Holds}
use cloud_ward.Remediation.Proposal.{IsPlanned, ask_policy-Holds}
use cloud_ward.Remediation.Deletion.{MayDelete, execute_round-Holds}

-- A state in which the pipeline leaves an incident.
abbrev pub is_final : IncidentState → Bool
is_final state = is_terminal state || same_state state awaiting_approval

-- The outcome tells the committed state of the incident, which is a final one.
pub record IsSettled {P : Platform} (scope : Scope P) (target : UnhealthyPodTarget)
    (o : PipelineOutcome) (t : Session P) : Type 0 where
  pub authorized : IsAuthorized scope.chosen scope.before t.calls
  pub final : is_final o.state ≡ true
  pub told : t.live.incident.state ≡ o.state
  pub saved : t.committed ≡ t.live
  pub verified :
      o.state ≡ resolved
      → (v : VerificationResult) × (o.verification ≡ some v)
        × (v.success ≡ true)
        × IsFound P (verification_target target) v

module _ {P : Platform} {scope : Scope P} (settings : Settings) (who : Actor)
    (target : UnhealthyPodTarget) (plan : Plan) (policy : PolicyResult) where
  verify_round-Holds :
      (clock : P.World → ℕ)
      → IsClock P clock
      → 1 ≤ settings.verification_poll
      → (attempt after : ℕ) (s : Session P) → IsGood scope after s
      → Holds scope
          (λ v t. IsGood scope after t × IsFound P (verification_target target) v)
          (verify_round settings who target plan attempt s)
  unfolding verify_round add_snapshot audit_row
  verify_round-Holds clock moves poll attempt after s h =
      let timeout = round_timeout settings plan.runbook in
      let (v, e, _, _, _, read) =
        verify_until-returns clock (verification_target target) timeout settings.verification_poll s
          moves poll in
      let polled =
        verify_until (suc timeout) (verification_target target) timeout settings.verification_poll
          s in
      Holds-continue scope (λ polled t. (polled ≡ some v) × IsGood scope after t) _ polled _
        (Holds-ok scope _ polled (some v) e (
          refl,
          IsGood-same after s polled.1 read.same_calls (ap (λ c. c.executions) read.same_live)
              (ap (λ c. c.incident.state) read.same_live) (rw read.same_committed h.safe.unresolved)
              h,
        ))
        (λ _ t found. rw found.0 (
          IsGood-same after t _ refl refl refl found.1.safe.unresolved found.1,
          verify_until-IsFound (verification_target target) (suc timeout) timeout
              settings.verification_poll s v e,
        ))

  resolve_round-Holds :
      (v : VerificationResult) (attempt after : ℕ) (s : Session P)
      → v.success ≡ true
      → IsFound P (verification_target target) v
      → IsGood scope after s
      → Holds scope (IsSettled scope target) (resolve_round settings who plan policy v attempt s)
  unfolding resolve_round set_proposal_status set_runbook_status audit_row
  resolve_round-Holds v attempt after s success found h =
      let u =
        (on_rows
          (λ c.
            set_runbook_status plan.runbook_execution_id succeeded
              (set_proposal_status plan.proposal.id succeeded c))
          s).1 in
      Holds-continue scope _ _ (change settings who resolved no_details u) _
        (change_resolved-Holds settings who no_details after u
          (IsGood-same after s u refl refl refl h.safe.unresolved h))
        (λ _ t changed. record {
          authorized = changed.0;
          final = refl;
          told = changed.1;
          saved = refl;
          verified = λ _. (v, refl, success, found);
        })

  give_up-Holds :
      (last : Option VerificationResult) (after : ℕ) (s : Session P)
      → IsGood scope after s
      → Holds scope (IsSettled scope target) (give_up settings who plan policy last s)
  unfolding give_up set_proposal_status set_runbook_status audit_row
  give_up-Holds last after s h =
      let u =
        (on_rows
          (λ c.
            set_runbook_status plan.runbook_execution_id failed
              (set_proposal_status plan.proposal.id failed c))
          s).1 in
      let details = record no_details { reason = some "maximum remediation attempts reached" } in
      Holds-continue scope _ _ (change settings who escalated details u) _
        (change-Holds settings who escalated details after u (λ e. cc)
          (IsGood-same after s u refl refl refl h.safe.unresolved h))
        (λ _ t changed. record {
          authorized = changed.0.safe.authorized;
          final = refl;
          told = changed.1;
          saved = refl;
          verified = λ e. cc;
        })

  authorize_retry-Holds :
      IsPlanned scope plan
      → (pod : Option PodState) (after : ℕ) (s : Session P) → IsGood scope after s
      → Holds scope
          (λ _ t. IsGood scope after t × MayDelete scope target pod t.calls)
          (authorize_retry target plan pod s)
  authorize_retry-Holds le none after s h = (h, tt)
  authorize_retry-Holds le (some pod) after s h =
      Holds-continue scope _ _
        (ask_policy target pod plan.proposal.action_type plan.risk plan.proposal.id s) _
        (ask_policy-Holds target pod plan.proposal.action_type plan.risk plan.proposal.id after s
          le.0 (plan.runbook, le.1, le.2) h)
        (λ answer t asked.
          Holds-if scope _ answer.allowed (pure tt) _ t (λ allowed. (asked.0, asked.1 allowed))
            (λ _. asked.0.safe))

  prepare_retry-Holds :
      IsPlanned scope plan
      → (after : ℕ) (s : Session P) → IsGood scope after s
      → Holds scope
          (λ pod t. IsGood scope after t × MayDelete scope target pod t.calls)
          (prepare_retry settings who target plan s)
  unfolding prepare_retry
  prepare_retry-Holds le after s h =
      Holds-continue scope _ _ (change settings who executing no_details s) _
        (change-Holds settings who executing no_details after s (λ e. cc) h)
        (λ _ t changed.
          Holds-continue scope _ _
            (collect_kubernetes_state target.namespace target.deployment target.label_selector t) _
            (collect-Holds target.namespace target.deployment target.label_selector after t
              changed.0)
            (λ refreshed u good.
              let pod = single (unhealthy_pods refreshed) in
              Holds-continue scope _ _ (authorize_retry target plan pod u) _
                (authorize_retry-Holds le pod after u good)
                (λ _ v asked.
                  (IsGood-same after v _ refl refl refl asked.0.active asked.0, asked.1))))

  next_pod-Holds :
      IsPlanned scope plan
      → (attempt after : ℕ) (pod : Option PodState) (s : Session P) → IsGood scope after s
      → Holds scope
          (λ following t.
            IsGood scope after t
            × (attempt < settings.max_remediation_attempts
                → MayDelete scope target following t.calls))
          (next_pod settings who target plan attempt pod s)
  unfolding next_pod
  next_pod-Holds le attempt after pod s h =
      Holds-if scope _ (ltb attempt settings.max_remediation_attempts)
        (prepare_retry settings who target plan) (pure pod) s
        (λ _.
          Holds-map scope _ _ (prepare_retry settings who target plan s)
            (λ _ _ asked. (asked.0, λ _. asked.1)) (prepare_retry-Holds le after s h))
        (λ last. (h, λ more. absurd (ground arith)))

  continue_round-Holds :
      IsPlanned scope plan
      → (attempt after : ℕ) (pod : Option PodState)
        (rest : Option PodState → Option VerificationResult → Exec P PipelineOutcome)
        (v : VerificationResult) (s : Session P)
      → ((following : Option PodState) (last : Option VerificationResult) (t : Session P)
          → IsGood scope after t
          → (attempt < settings.max_remediation_attempts → MayDelete scope target following t.calls)
          → Holds scope (IsSettled scope target) (rest following last t))
      → IsFound P (verification_target target) v
      → IsGood scope after s
      → Holds scope
          (IsSettled scope target)
          (continue_round settings who target plan policy attempt pod rest v s)
  unfolding continue_round
  continue_round-Holds le attempt after pod rest v s onward found h =
      Holds-if scope (IsSettled scope target) v.success
        (resolve_round settings who plan policy v attempt) _ s
        (λ success. resolve_round-Holds v attempt after s success found h)
        (λ _.
          Holds-continue scope _ _ (next_pod settings who target plan attempt pod s) _
            (next_pod-Holds le attempt after pod s h)
            (λ following t good. onward following (some v) t good.0 good.1))

  -- Before a round, the requests are authorized, no execution has its attempt, and its pod was
  -- allowed by the last request.
  pub run_rounds-Holds :
      (clock : P.World → ℕ)
      → IsClock P clock
      → 1 ≤ settings.verification_poll
      → settings.max_remediation_attempts ≤ 3
      → IsPlanned scope plan
      → (left attempt : ℕ) (pod : Option PodState) (last : Option VerificationResult)
        (s : Session P)
      → 1 ≤ attempt
      → attempt + left ≡ settings.max_remediation_attempts + 1
      → (1 ≤ left → MayDelete scope target pod s.calls)
      → IsGood scope attempt s
      → Holds scope
          (IsSettled scope target)
          (run_rounds left settings who target plan policy attempt pod last s)
  unfolding run_rounds
  run_rounds-Holds clock moves poll three le zero attempt pod last s one sum may h =
      give_up-Holds last attempt s h
  run_rounds-Holds clock moves poll three le (suc left) attempt pod last s one sum may h =
      Holds-continue scope _ _ (execute_round settings who target plan attempt pod s) _
        (execute_round-Holds settings who target plan attempt pod s one (omega (arith, sum, three))
          (may (omega arith)) h)
        (λ _ t executed.
          Holds-continue scope _ _ (verify_round settings who target plan attempt t) _
            (verify_round-Holds clock moves poll attempt (attempt + 1) t executed.0)
            (λ v u (good, found).
              continue_round-Holds le attempt (attempt + 1) pod
                (run_rounds left settings who target plan policy (attempt + 1)) v u
                (λ following last w good may.
                  run_rounds-Holds clock moves poll three le left (attempt + 1) following last w
                    (omega (arith, one)) (omega (arith, sum))
                    (λ remain. may (omega (arith, sum, remain))) good)
                found good))
