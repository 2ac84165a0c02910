-- ===== src/Remediation/Steps.antt =====
-- The steps of the pipeline that request nothing: each keeps the requests and the executions.
use cloud_ward.Prelude.{
  ◌∙◌, ℕ, ◌≡◌, ◌≢◌, inl, inr, refl, String, Option, none, some, List, [], ◌∷◌, arith, keep,
}
use cloud_ward.Errors.{ErrorCode, runbook_not_found}
use cloud_ward.Incidents.Machine.{
  IncidentState, resolved, collecting_evidence, classifying, action_proposed,
}
use cloud_ward.Incidents.Service.{Details, no_details, audit_row, set_incident}
use cloud_ward.Incidents.Lifecycle.{change_incident_state-checked}
use cloud_ward.Store.Records.{kubernetes_state, environment_value}
use cloud_ward.Settings.{Settings}
use cloud_ward.Platform.{Platform, PodState, transport_failed}
use cloud_ward.Exec.{Exec, Session, outside, on_rows, ◌>>◌}
use cloud_ward.Kubernetes.Executor.{get_deployment, get_pods, get_service_health, or_error}
use cloud_ward.Evidence.{KubernetesEvidence, unhealthy_pods, collect_kubernetes_state}
use cloud_ward.Runbooks.Schema.{RunbookDocument}
use cloud_ward.Runbooks.Loader.{best, match_runbook}
use cloud_ward.Remediation.Plan.{
  UnhealthyPodTarget, Actor, add_snapshot, add_runbook_execution, is_requested, change, audit,
  only_pod, select_unhealthy_pod, validate_preconditions, gather_evidence, select_runbook,
}
use cloud_ward.Remediation.Holds.{
  Scope, IsReachable, IsAuthorized, IsGood, Holds, Holds-continue, Holds-ok, IsGood-same,
}

module _ {P : Platform} where
  -- The rows of a selection.
  abbrev selected : Settings → Actor → RunbookDocument → Exec P (Unit {0})
  selected settings who runbook = do
    on_rows (
        set_incident
          (λ i. record i { runbook_id = some runbook.id; runbook_version = some runbook.version }))
    on_rows (add_runbook_execution runbook)
    audit who "RUNBOOK_SELECTED" (some runbook.action) none none "SUCCEEDED"

module _ {P : Platform} {scope : Scope P} where
  -- A change of the state returns in the target state, or is refused and changes nothing.
  pub change-Holds :
      (settings : Settings) (who : Actor) (target : IncidentState) (details : Details) (attempt : ℕ)
      (s : Session P)
      → target ≢ resolved
      → IsGood scope attempt s
      → Holds scope
          (λ _ t. IsGood scope attempt t × (t.live.incident.state ≡ target) × (t.calls ≡ s.calls))
          (change settings who target details s)
  change-Holds settings who target details attempt s other h =
      elim (change_incident_state-checked settings target who.actor who.actor_type details s) [
        | inl (same, e) ↦ rw e (h, same, refl)
        | inr (inl (_, _, done, applied)) ↦
            Holds-ok scope _ (change settings who target details s) tt done (
              record {
                safe = record {
                  authorized = rw applied.same_calls h.safe.authorized;
                  unresolved = rw applied.same_committed h.safe.unresolved;
                };
                active = rw applied.in_target other;
                attempts = rw applied.same_executions h.attempts;
              },
              applied.in_target,
              applied.same_calls,
            )
        | inr (inr (_, _, e)) ↦ rw e h.safe
      ]

  -- The change that resolves the incident.
  pub change_resolved-Holds :
      (settings : Settings) (who : Actor) (details : Details) (attempt : ℕ) (s : Session P)
      → IsGood scope attempt s
      → Holds scope
          (λ _ t.
            IsAuthorized scope.chosen scope.before t.calls × (t.live.incident.state ≡ resolved))
          (change settings who resolved details s)
  change_resolved-Holds settings who details attempt s h =
      elim (change_incident_state-checked settings resolved who.actor who.actor_type details s) [
        | inl (same, e) ↦ rw e (h.safe.authorized, same)
        | inr (inl (_, _, done, applied)) ↦
            Holds-ok scope _ (change settings who resolved details s) tt done
              (rw applied.same_calls h.safe.authorized, applied.in_target)
        | inr (inr (_, _, e)) ↦ rw e h.safe
      ]

  get_service_health-Holds :
      (namespace name path : String) (attempt : ℕ) (s : Session P)
      → IsGood scope attempt s
      → Holds scope (λ _ t. IsGood scope attempt t) (get_service_health namespace name path s)
  unfolding get_service_health outside
  get_service_health-Holds namespace name path attempt s h =
      let lost : (P.proxy_health name namespace (P.strip_slashes path) s.world).0 ≡ transport_failed
          → ¬ IsReachable P =
        λ e reachable. reachable.health name namespace (P.strip_slashes path) s.world e in
      ground (arith, lost)

  get_deployment-Holds :
      (namespace name : String) (attempt : ℕ) (s : Session P)
      → IsGood scope attempt s
      → Holds scope (λ _ t. IsGood scope attempt t) (get_deployment namespace name s)
  unfolding get_deployment outside
  get_deployment-Holds namespace name attempt s h =
      let lost : (P.read_deployment namespace name s.world).0 ≡ transport_failed → ¬ IsReachable P =
        λ e reachable. reachable.deployments namespace name s.world e in
      ground (arith, lost)

  get_pods-Holds :
      (namespace selector : String) (attempt : ℕ) (s : Session P)
      → IsGood scope attempt s
      → Holds scope (λ _ t. IsGood scope attempt t) (get_pods namespace selector s)
  unfolding get_pods outside
  get_pods-Holds namespace selector attempt s h =
      let lost : (P.list_pods namespace selector s.world).0 ≡ transport_failed → ¬ IsReachable P =
        λ e reachable. reachable.pods namespace selector s.world e in
      ground (arith, lost)

  pub collect-Holds :
      (namespace deployment selector : String) (attempt : ℕ) (s : Session P)
      → IsGood scope attempt s
      → Holds scope
          (λ _ t. IsGood scope attempt t)
          (collect_kubernetes_state namespace deployment selector s)
  unfolding collect_kubernetes_state
  collect-Holds namespace deployment selector attempt s h =
      Holds-continue scope _ _ (get_deployment namespace deployment s) _
        (get_deployment-Holds namespace deployment attempt s h)
        (λ _ t good.
          Holds-continue scope _ _ (get_pods namespace selector t) _
            (get_pods-Holds namespace selector attempt t good) (λ _ u good. good))

  pub gather_evidence-Holds :
      (settings : Settings) (who : Actor) (target : UnhealthyPodTarget) (attempt : ℕ)
      (s : Session P)
      → IsGood scope attempt s
      → Holds scope (λ _ t. IsGood scope attempt t) (gather_evidence settings who target s)
  unfolding gather_evidence add_snapshot audit_row
  gather_evidence-Holds settings who target attempt s h =
      Holds-continue scope _ _ (change settings who collecting_evidence no_details s) _
        (change-Holds settings who collecting_evidence no_details attempt s (λ e. cc) h)
        (λ _ t changed.
          Holds-continue scope _ _
            (collect_kubernetes_state target.namespace target.deployment target.label_selector t) _
            (collect-Holds target.namespace target.deployment target.label_selector attempt t
              changed.0)
            (λ _ u good.
              let w =
                (on_rows (add_snapshot kubernetes_state "Deployment and pod readiness snapshot")
                  u).1 in
              Holds-continue scope _ _
                (get_service_health target.namespace target.service_name target.health_path w) _
                (get_service_health-Holds target.namespace target.service_name target.health_path
                  attempt w (IsGood-same attempt u w refl refl refl good.safe.unresolved good))
                (λ _ v good. IsGood-same attempt v _ refl refl refl good.active good)))

  only_pod-Holds :
      (pods : List PodState) (attempt : ℕ) (s : Session P)
      → IsGood scope attempt s
      → Holds scope (λ _ t. IsGood scope attempt t) (only_pod pods s)
  only_pod-Holds [] attempt s h = h.safe
  only_pod-Holds (pod ∷ []) attempt s h = h
  only_pod-Holds (pod ∷ other ∷ rest) attempt s h = h.safe

  pub select_unhealthy_pod-Holds :
      (evidence : KubernetesEvidence) (requested : Option String) (attempt : ℕ) (s : Session P)
      → IsGood scope attempt s
      → Holds scope (λ _ t. IsGood scope attempt t) (select_unhealthy_pod evidence requested s)
  unfolding select_unhealthy_pod
  select_unhealthy_pod-Holds evidence requested attempt s h =
      only_pod-Holds (keep (is_requested requested) (unhealthy_pods evidence)) attempt s h

  validate_preconditions-Holds :
      (runbook : RunbookDocument) (evidence : KubernetesEvidence) (pod : PodState) (attempt : ℕ)
      (s : Session P)
      → IsGood scope attempt s
      → Holds scope (λ _ t. IsGood scope attempt t) (validate_preconditions runbook evidence pod s)
  unfolding validate_preconditions
  validate_preconditions-Holds runbook evidence pod attempt s h = ground arith

  or_error-Holds :
      {A : Type 0} (found : Option A) (code : ErrorCode) (status attempt : ℕ) (s : Session P)
      → IsGood scope attempt s
      → Holds scope
          (λ a t. IsGood scope attempt t × (found ≡ some a))
          (or_error found code status s)
  or_error-Holds none code status attempt s h = h.safe
  or_error-Holds (some a) code status attempt s h = (h, refl)

  match_runbook-Holds :
      (runbooks : List RunbookDocument) (category environment : String) (signals : List String)
      (attempt : ℕ) (s : Session P)
      → IsGood scope attempt s
      → Holds scope
          (λ q t. IsGood scope attempt t × (best runbooks category signals environment ≡ some q))
          (match_runbook runbooks category signals environment s)
  unfolding match_runbook
  match_runbook-Holds runbooks category environment signals attempt s h =
      or_error-Holds (best runbooks category signals environment) runbook_not_found 422 attempt s h

  pub select_runbook-Holds :
      (settings : Settings) (who : Actor) (target : UnhealthyPodTarget)
      (runbooks : List RunbookDocument) (evidence : KubernetesEvidence) (pod : PodState)
      (attempt : ℕ) (s : Session P)
      → scope.chosen
        ≡ best runbooks "reliability" ("pod_unhealthy" ∷ []) (environment_value target.environment)
      → IsGood scope attempt s
      → Holds scope
          (λ selected t. IsGood scope attempt t × (scope.chosen ≡ some selected.0))
          (select_runbook settings who target runbooks evidence pod s)
  unfolding select_runbook add_runbook_execution audit_row
  select_runbook-Holds settings who target runbooks evidence pod attempt s choice h =
      Holds-continue scope _ _ (change settings who classifying no_details s) _
        (change-Holds settings who classifying no_details attempt s (λ e. cc) h)
        (λ _ t changed.
          Holds-continue scope _ _
            (match_runbook runbooks "reliability" ("pod_unhealthy" ∷ [])
              (environment_value target.environment) t)
            _ (match_runbook-Holds runbooks "reliability" _ _ attempt t changed.0)
            (λ runbook u (good, found).
              Holds-continue scope _ _ (validate_preconditions runbook evidence pod u) _
                (validate_preconditions-Holds runbook evidence pod attempt u good)
                (λ _ v good.
                  let w = (selected settings who runbook v).1 in
                  Holds-continue scope _ _ (change settings who action_proposed no_details w) _
                    (change-Holds settings who action_proposed no_details attempt w (λ e. cc)
                      (IsGood-same attempt v w refl refl refl good.safe.unresolved good))
                    (λ _ x changed. (changed.0, choice ∙ found)))))
