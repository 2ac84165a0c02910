-- ===== src/Remediation/Process.antt =====
-- What the stages of a run keep true, up to its last round, and where its failures end.
use cloud_ward.Prelude.{
  [], ◌∷◌, ℕ, ◌≡◌, ◌≢◌, ◌≤◌, inl, inr, refl, Bool-cases, true, false, none, some, List, arith,
  if◌then◌else◌,
}
use cloud_ward.Errors.{ok, ErrorCode}
use cloud_ward.Incidents.Machine.{resolved, executing, escalated, is_terminal}
use cloud_ward.Incidents.Service.{Details, no_details, audit_row}
use cloud_ward.Incidents.Lifecycle.{change_incident_state-checked}
use cloud_ward.Incidents.Reach.{escalation-iff_not_terminal}
use cloud_ward.Store.Records.{running, environment_value}
use cloud_ward.Runbooks.Loader.{best}
use cloud_ward.Store.Case.{set_proposal_status, set_runbook_status}
use cloud_ward.Settings.{Settings}
use cloud_ward.Platform.{Platform, PolicyResult}
use cloud_ward.Exec.{Exec, Session, on_rows, commit, roll_back}
use cloud_ward.Runbooks.Schema.{RunbookDocument}
use cloud_ward.Verification.Clock.{IsClock}
use cloud_ward.Remediation.Plan.{
  UnhealthyPodTarget, PipelineOutcome, Actor, Plan, change, audit, gather_evidence,
  select_unhealthy_pod, select_runbook, propose_action, ask_policy,
}
use cloud_ward.Remediation.Pipeline.{
  withheld_state, failed_outcome, withhold, carry_out, act_on_policy, process, escalate_failure,
}
use cloud_ward.Remediation.Holds.{
  Scope, IsSafe, IsAllowing, IsGood, Holds, Holds-continue, Holds-if, Holds-when, continue-ok,
  IsGood-same,
}
use cloud_ward.Remediation.Steps.{
  change-Holds, gather_evidence-Holds, select_unhealthy_pod-Holds, select_runbook-Holds,
}
use cloud_ward.Remediation.Proposal.{IsPlanned, propose_action-Holds, ask_policy-Holds}
use cloud_ward.Remediation.Loop.{is_final, IsSettled, run_rounds-Holds}

withheld_state-is_final : (policy : PolicyResult) → is_final (withheld_state policy) ≡ true
withheld_state-is_final policy = ground arith

withheld_state-unresolved : (policy : PolicyResult) → withheld_state policy ≢ resolved
withheld_state-unresolved policy = ground arith

module _ {P : Platform} where
  abbrev evaluated_audit : Actor → Plan → PolicyResult → Exec P (Unit {0})
  evaluated_audit who plan policy =
      audit who "OPA_EVALUATED" (some plan.proposal.action_type) (some plan.risk.score)
        (some (if policy.allowed then "ALLOW" else "DENY")) "SUCCEEDED"

module _ {P : Platform} (settings : Settings) (who : Actor) where
  change-escalates :
      (details : Details) (s : Session P)
      → is_terminal s.live.incident.state ≡ false
      → let r = change settings who escalated details s in
        (r.0 ≡ ok tt) × (r.1.live.incident.state ≡ escalated) × (r.1.calls ≡ s.calls)
  change-escalates details s active =
      elim (change_incident_state-checked settings escalated who.actor who.actor_type details s) [
        | inl (same, e) ↦ absurd (ground (arith, active, same))
        | inr (inl (_, _, done, applied)) ↦ (done, applied.in_target, applied.same_calls)
        | inr (inr (_, refused, _)) ↦
            elim (escalation-iff_not_terminal s.live.incident.state escalated) [
              | inl (settled, _) ↦ absurd (cc)
              | inr (_, allowed) ↦ absurd (refused allowed)
            ]
      ]

module _ {P : Platform} {scope : Scope P} (settings : Settings) (who : Actor) where
  withhold-Holds :
      (target : UnhealthyPodTarget) (plan : Plan) (policy : PolicyResult) (attempt : ℕ)
      (s : Session P)
      → IsGood scope attempt s
      → Holds scope (IsSettled scope target) (withhold settings who plan policy s)
  unfolding withhold set_proposal_status set_runbook_status audit_row
  withhold-Holds target plan policy attempt s h =
      let details = record no_details { policy_reason = some policy.reason } in
      Holds-continue scope _ _ (change settings who (withheld_state policy) details s) _
        (change-Holds settings who (withheld_state policy) details attempt s
          (withheld_state-unresolved policy) h)
        (λ _ t changed.
          Holds-when scope (IsSettled scope target) policy.requires_approval _ _ _
            (λ _. record {
              authorized = changed.0.safe.authorized;
              final = withheld_state-is_final policy;
              told = changed.1;
              saved = refl;
              verified = λ e. absurd (withheld_state-unresolved policy e);
            })
            (λ _. record {
              authorized = changed.0.safe.authorized;
              final = withheld_state-is_final policy;
              told = changed.1;
              saved = refl;
              verified = λ e. absurd (withheld_state-unresolved policy e);
            }))

  carry_out-Holds :
      (clock : P.World → ℕ)
      → IsClock P clock
      → 1 ≤ settings.verification_poll
      → settings.max_remediation_attempts ≤ 3
      → (target : UnhealthyPodTarget) (plan : Plan) (policy : PolicyResult) (s : Session P)
      → IsPlanned scope plan
      → IsAllowing scope.chosen target.namespace plan.pod.name s.calls
      → IsGood scope 1 s
      → Holds scope (IsSettled scope target) (carry_out settings who target plan policy s)
  unfolding carry_out set_proposal_status
  carry_out-Holds clock moves poll three target plan policy s le allowing h =
      let u = (on_rows (set_proposal_status plan.proposal.id running) s).1 in
      Holds-continue scope _ _ (change settings who executing no_details u) _
        (change-Holds settings who executing no_details 1 u (λ e. cc)
          (IsGood-same 1 s u refl refl refl h.safe.unresolved h))
        (λ _ t changed.
          let v = (commit t).1 in
          run_rounds-Holds settings who target plan policy clock moves poll three le
            settings.max_remediation_attempts 1 (some plan.pod) none v (omega arith) (omega arith)
            (λ _. rw changed.2 allowing)
            (IsGood-same 1 t v refl refl refl changed.0.active changed.0))

  act_on_policy-Holds :
      (clock : P.World → ℕ)
      → IsClock P clock
      → 1 ≤ settings.verification_poll
      → settings.max_remediation_attempts ≤ 3
      → (target : UnhealthyPodTarget) (plan : Plan) (s : Session P) → IsPlanned scope plan
      → IsGood scope 1 s
      → Holds scope (IsSettled scope target) (act_on_policy settings who target plan s)
  unfolding act_on_policy audit_row
  act_on_policy-Holds clock moves poll three target plan s le h =
      Holds-continue scope _ _
        (ask_policy target plan.pod plan.proposal.action_type plan.risk plan.proposal.id s) _
        (ask_policy-Holds target plan.pod plan.proposal.action_type plan.risk plan.proposal.id 1 s
          le.0 (plan.runbook, le.1, le.2) h)
        (λ policy t asked.
          let u = (evaluated_audit who plan policy t).1 in
          let good = IsGood-same 1 t u refl refl refl asked.0.safe.unresolved asked.0 in
          Holds-if scope (IsSettled scope target) policy.allowed
            (carry_out settings who target plan policy) (withhold settings who plan policy) u
            (λ allowed.
              carry_out-Holds clock moves poll three target plan policy u le (asked.1 allowed) good)
            (λ _. withhold-Holds target plan policy 1 u good))

  pub process-Holds :
      (clock : P.World → ℕ)
      → IsClock P clock
      → 1 ≤ settings.verification_poll
      → settings.max_remediation_attempts ≤ 3
      → (target : UnhealthyPodTarget) (runbooks : List RunbookDocument) (s : Session P)
      → scope.chosen
        ≡ best runbooks "reliability" ("pod_unhealthy" ∷ []) (environment_value target.environment)
      → IsGood scope 1 s
      → Holds scope (IsSettled scope target) (process settings who target runbooks s)
  unfolding process
  process-Holds clock moves poll three target runbooks s choice h =
      Holds-continue scope _ _ (gather_evidence settings who target s) _
        (gather_evidence-Holds settings who target 1 s h)
        (λ evidence t good.
          Holds-continue scope _ _ (select_unhealthy_pod evidence target.pod_name t) _
            (select_unhealthy_pod-Holds evidence target.pod_name 1 t good)
            (λ pod u good.
              Holds-continue scope _ _ (select_runbook settings who target runbooks evidence pod u)
                _ (select_runbook-Holds settings who target runbooks evidence pod 1 u choice good)
                (λ selected v (good, chosen).
                  Holds-continue scope _ _ (propose_action settings who target pod selected v) _
                    (propose_action-Holds settings who target pod selected 1 v chosen good)
                    (λ plan w proposed.
                      act_on_policy-Holds clock moves poll three target plan w proposed.1
                        proposed.0))))

  pub escalate_failure-settles :
      (target : UnhealthyPodTarget) (code : ErrorCode) (s : Session P)
      → IsSafe scope s
      → let r = escalate_failure settings who code s in
        (o : PipelineOutcome) × (r.0 ≡ ok o) × IsSettled scope target o r.1
  unfolding escalate_failure audit_row
  escalate_failure-settles target code s safe =
      let u = (roll_back s).1 in
      let state = s.committed.incident.state in
      let details = record no_details { error_code = some code } in
      elim (Bool-cases (is_terminal state)) [
        | inl settled ↦ rw settled (
          failed_outcome s.committed,
          refl,
          record {
            authorized = safe.authorized;
            final = rw settled refl;
            told = refl;
            saved = refl;
            verified = λ e. absurd (safe.unresolved e);
          },
        )
        | inr active ↦
            let (e, escalates, calls) = change-escalates settings who details u active in
            let v = (change settings who escalated details u).1 in
            rw (active, continue-ok (change settings who escalated details u) _ tt e)
              (
                failed_outcome v.live,
                refl,
                record {
                  authorized = rw calls safe.authorized;
                  final = rw escalates refl;
                  told = refl;
                  saved = refl;
                  verified = rw escalates (λ e. cc);
                },
              )
      ]
