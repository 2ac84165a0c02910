-- ===== src/Remediation/Outcome.antt =====
-- Where a run of the pipeline ends.
use cloud_ward.Prelude.{
  Option, ap, sym, ◌∙◌, [], ◌∷◌, ℕ, ◌≡◌, ◌≢◌, ◌≤◌, inl, inr, ◌⊎◌, refl, String, true, some, List,
  arith,
}
use cloud_ward.Errors.{Result, ok, err, cloud_ward_error, python_error, transport_error}
use cloud_ward.Incidents.Machine.{IncidentState, resolved}
use cloud_ward.Incidents.Service.{audit_row, create_incident, fresh_case, timeline_row}
use cloud_ward.Store.Records.{environment_value}
use cloud_ward.Runbooks.Loader.{best}
use cloud_ward.Store.Case.{Case, append_stream_event}
use cloud_ward.Settings.{Settings}
use cloud_ward.Platform.{Platform}
use cloud_ward.Exec.{Session}
use cloud_ward.Runbooks.Schema.{RunbookDocument}
use cloud_ward.Verification.Engine.{VerificationResult}
use cloud_ward.Verification.Found.{IsFound}
use cloud_ward.Verification.Clock.{IsClock}
use cloud_ward.Remediation.Plan.{verification_target, UnhealthyPodTarget, PipelineOutcome, Actor}
use cloud_ward.Remediation.Pipeline.{recover, run}
use cloud_ward.Remediation.Holds.{Scope, IsReachable, no_calls, IsAuthorized, IsSafe, Holds}
use cloud_ward.Remediation.Loop.{is_final, IsSettled}
use cloud_ward.Remediation.Process.{process-Holds, escalate_failure-settles}

resolved-cases : (state : IncidentState) → (state ≢ resolved) ⊎ (state ≡ resolved)
resolved-cases state = ground arith

-- The runbook that a run chooses for an unhealthy pod.
abbrev pub chosen_runbook : UnhealthyPodTarget → List RunbookDocument → Option RunbookDocument
chosen_runbook target runbooks =
    best runbooks "reliability" ("pod_unhealthy" ∷ []) (environment_value target.environment)

-- The outcome of a run that returns one, or the exception that has left it.
abbrev IsRun :
    {P : Platform} → Scope P → UnhealthyPodTarget → Result PipelineOutcome × Session P → Type 0
IsRun {P} scope target r =
    ((o : PipelineOutcome) × (r.0 ≡ ok o) × IsSettled scope target o r.1)
    ⊎ ((r.0 ≡ err (python_error transport_error)) × (¬ IsReachable P) × IsSafe scope r.1)

recover-IsRun :
    {P : Platform} {scope : Scope P} (settings : Settings) (who : Actor)
    (target : UnhealthyPodTarget) (r : Result PipelineOutcome × Session P)
    → Holds scope (IsSettled scope target) r
    → IsRun scope target (recover settings who r)
recover-IsRun settings who target (ok o, t) h = inl (o, refl, h)
recover-IsRun settings who target (err (cloud_ward_error code status), t) h =
    inl (escalate_failure-settles settings who target code t h)
recover-IsRun settings who target (err (python_error e), t) ((transport, lost), safe) =
    inr (rw transport refl, lost, safe)

-- What the statements on a run share: the outside and the settings that it needs.
module _ {P : Platform} (clock : P.World → ℕ) (settings : Settings) (who : Actor)
    (target : UnhealthyPodTarget) (runbooks : List RunbookDocument) (correlation_id : String)
    (s : Session P) (moves : IsClock P clock) (poll : 1 ≤ settings.verification_poll)
    (three : settings.max_remediation_attempts ≤ 3) where
  abbrev run_scope : Scope P
  run_scope = record { chosen = chosen_runbook target runbooks; before = s.calls }

  run-IsRun : IsRun run_scope target (run settings who target runbooks correlation_id s)
  unfolding run create_incident fresh_case timeline_row audit_row append_stream_event
  run-IsRun = recover-IsRun settings who target _ (
      process-Holds settings who clock moves poll three target runbooks _ refl (record {
        safe = record { authorized = no_calls; unresolved = λ e. cc };
        active = λ e. cc;
        attempts = tt;
      }))

  -- If the clock of the outside is one, the poll interval is at least a millisecond and there are at
  -- most three attempts, then a run of the pipeline returns an outcome, or it ends with an exception
  -- of the Kubernetes client that is no ApiException. The second happens only if the Kubernetes API
  -- is not always reachable, and leaves the committed incident in another state than RESOLVED. An
  -- outcome tells the state of the incident, which is RESOLVED, BLOCKED, ESCALATED or
  -- AWAITING_APPROVAL, and the committed rows are those that the session sees: no change is left
  -- uncommitted.
  pub run-settles :
      let r = run settings who target runbooks correlation_id s in
      ((o : PipelineOutcome) × (r.0 ≡ ok o)
        × (is_final o.state ≡ true)
        × (r.1.live.incident.state ≡ o.state)
        × (r.1.committed ≡ r.1.live))
      ⊎ ((r.0 ≡ err (python_error transport_error))
          × (¬ IsReachable P)
          × (r.1.committed.incident.state ≢ resolved))
  run-settles = elim run-IsRun [
    | inl (o, e, h) ↦ inl (o, e, h.final, h.told, h.saved)
    | inr (e, lost, safe) ↦ inr (e, lost, safe.unresolved)
  ]

  -- If the clock of the outside is one, the poll interval is at least a millisecond and there are at
  -- most three attempts, then the calls that a run adds are questions to OPA and deletions of pods,
  -- however the run ends. Each deletion directly follows an answer of OPA that allows it: the input
  -- of that answer names this pod and its namespace, and asks for the action of the runbook that is
  -- chosen for the incident. This also holds for the pods of the second and third attempt.
  pub run-IsAuthorized :
      IsAuthorized
        (chosen_runbook target runbooks)
        s.calls
        (run settings who target runbooks correlation_id s).1.calls
  run-IsAuthorized = elim run-IsRun [
    | inl (o, e, h) ↦ h.authorized
    | inr (e, lost, safe) ↦ safe.authorized
  ]

  -- If the clock of the outside is one, the poll interval is at least a millisecond and there are at
  -- most three attempts, then a run commits its incident in a state other than RESOLVED, or it
  -- returns an outcome in the state RESOLVED with a verification that succeeded, and that has the checks
  -- of a round of checks on the target of the run: no refusal and no failure ends in a resolved
  -- incident.
  pub run-verified :
      let r = run settings who target runbooks correlation_id s in
      (r.1.committed.incident.state ≢ resolved)
      ⊎ ((o : PipelineOutcome) × (v : VerificationResult) × (r.0 ≡ ok o)
          × (o.state ≡ resolved)
          × (o.verification ≡ some v)
          × (v.success ≡ true)
          × IsFound P (verification_target target) v)
  run-verified = elim run-IsRun [
    | inl (o, e, h) ↦
        let state = ap (λ (c : Case). c.incident.state) h.saved ∙ h.told in
        elim (resolved-cases o.state) [
          | inl other ↦ inl (λ settled. other (sym state ∙ settled))
          | inr settled ↦
              let (v, given, success, found) = h.verified settled in
              inr (o, v, e, settled, given, success, found)
        ]
    | inr (e, lost, safe) ↦ inl safe.unresolved
  ]
