-- ===== src/Remediation/Deletion.antt =====
-- The first half of a round: its execution, and the deletion that it records.
use cloud_ward.Prelude.{
  Bool, not, ℕ, ◌+◌, ◌≡◌, ◌≤◌, ◌<◌, ◌&&◌, ◌==◌, any, inl, inr, refl, String, true, false, Option,
  none, some, List, [], ◌∷◌, arith, update_where,
}
use cloud_ward.Incidents.Machine.{verifying}
use cloud_ward.Incidents.Service.{no_details, audit_row, set_incident}
use cloud_ward.Store.Records.{ActionExecution}
use cloud_ward.Store.Case.{save_execution}
use cloud_ward.Settings.{Settings}
use cloud_ward.Platform.{
  Platform, PodState, KubernetesReply, answered, api_exception, transport_failed,
}
use cloud_ward.Exec.{Exec, continue, Session, Call, outside, on_rows}
use cloud_ward.Kubernetes.Executor.{
  delete_pod, require_namespace, get_pod_health, ensure, or_api_error, is_demo_target, is_text,
}
use cloud_ward.Errors.{Result, ok, err, ErrorCode, cloud_ward_error, python_error}
use cloud_ward.Kubernetes.Guards.{delete_pod-guarded}
use cloud_ward.Execution.Claim.{may_insert}
use cloud_ward.Execution.Restore.{with_row, insert_execution-with_row}
use cloud_ward.Remediation.Plan.{UnhealthyPodTarget, Actor, Plan, change}
use cloud_ward.Remediation.Rounds.{round_execution, delete_current, execute_round}
use cloud_ward.Remediation.Holds.{
  Scope, pod_deleted, IsReachable, IsAllowing, AttemptsBelow, IsGood, Holds, Holds-continue,
  Holds-of, IsDomestic, IsGood-same,
}
use cloud_ward.Remediation.Steps.{change-Holds}

-- The pod of a round, if it has one, was allowed by the last request.
abbrev pub MayDelete :
    {P : Platform} → Scope P → UnhealthyPodTarget → Option PodState → List (Call P) → Type 0
MayDelete scope target none calls = Unit
MayDelete scope target (some pod) calls = IsAllowing scope.chosen target.namespace pod.name calls

AttemptsBelow-suc :
    (attempt : ℕ) (xs : List ActionExecution)
    → AttemptsBelow attempt xs
    → AttemptsBelow (attempt + 1) xs
AttemptsBelow-suc attempt [] h = tt
AttemptsBelow-suc attempt (x ∷ xs) h = (omega (arith, h.0), AttemptsBelow-suc attempt xs h.1)

AttemptsBelow-update_where :
    (attempt id : ℕ) (x : ActionExecution) (xs : List ActionExecution)
    → x.attempt < attempt
    → AttemptsBelow attempt xs
    → AttemptsBelow attempt (update_where (λ r. r.id == id) (λ _. x) xs)
unfolding update_where
AttemptsBelow-update_where attempt id x [] h k = tt
AttemptsBelow-update_where attempt id x (y ∷ ys) h k =
    ground (arith, AttemptsBelow-update_where attempt id x ys h k.1)

AttemptsBelow-fresh :
    (attempt incident_id : ℕ) (xs : List ActionExecution)
    → AttemptsBelow attempt xs
    → any (λ (y : ActionExecution). y.incident_id == incident_id && y.attempt == attempt) xs ≡ false
unfolding any
AttemptsBelow-fresh attempt incident_id [] h = refl
AttemptsBelow-fresh attempt incident_id (x ∷ xs) h =
    ground (arith, AttemptsBelow-fresh attempt incident_id xs h.1)

any_never : {A : Type 0} (xs : List A) → any (λ _. false) xs ≡ false
unfolding any
any_never [] = refl
any_never (x ∷ xs) = any_never xs

round_execution-may_insert :
    (id incident_id proposal_id attempt : ℕ) (xs : List ActionExecution)
    → 1 ≤ attempt
    → attempt ≤ 3
    → AttemptsBelow attempt xs
    → may_insert (round_execution id incident_id proposal_id attempt) xs ≡ true
unfolding may_insert round_execution
round_execution-may_insert id incident_id proposal_id attempt xs h k below =
    rw (AttemptsBelow-fresh attempt incident_id xs below, any_never xs) (ground arith)

round_execution-attempt :
    (id incident_id proposal_id attempt : ℕ)
    → (round_execution id incident_id proposal_id attempt).attempt < attempt + 1
unfolding round_execution
round_execution-attempt id incident_id proposal_id attempt = omega arith

module _ {P : Platform} where
  IsDomestic-continue :
      {A B : Type 0} (q : Result A × Session P) (f : A → Exec P B)
      → IsDomestic P q.0
      → ((a : A) (t : Session P) → IsDomestic P (f a t).0)
      → IsDomestic P (continue q f).0
  IsDomestic-continue (ok a, t) f h k = k a t
  IsDomestic-continue (err (cloud_ward_error code status), t) f h k = h
  IsDomestic-continue (err (python_error e), t) f h k = h

  IsDomestic-ensure :
      {B : Type 0} (test : Bool) (code : ErrorCode) (status : ℕ) (f : Unit {0} → Exec P B)
      (s : Session P)
      → IsDomestic P (f tt s).0
      → IsDomestic P (continue (ensure test code status s) f).0
  IsDomestic-ensure true code status f s h = h
  IsDomestic-ensure false code status f s h = tt

  or_api_error-IsDomestic :
      {A : Type 0} (reply : KubernetesReply A) (code : ErrorCode) (status : ℕ) (s : Session P)
      → (reply ≡ transport_failed → ¬ IsReachable P)
      → IsDomestic P (or_api_error reply code status s).0
  or_api_error-IsDomestic (answered a) code status s lost = tt
  or_api_error-IsDomestic api_exception code status s lost = tt
  or_api_error-IsDomestic transport_failed code status s lost = (refl, lost refl)

  get_pod_health-IsDomestic :
      (namespace name : String) (s : Session P) → IsDomestic P (get_pod_health namespace name s).0
  unfolding get_pod_health outside
  get_pod_health-IsDomestic namespace name s =
      IsDomestic-ensure (P.is_dns_label namespace) _ _ _ s (
        IsDomestic-ensure (P.is_dns_label name) _ _ _ s (
          or_api_error-IsDomestic (P.read_pod namespace name s.world).0 _ _ _
            (λ e reachable. reachable.pod namespace name s.world e)))

  delete_pod-IsDomestic :
      (allowed : List String) (namespace name : String) (s : Session P)
      → IsDomestic P (delete_pod allowed namespace name s).0
  unfolding delete_pod outside
  delete_pod-IsDomestic allowed namespace name s =
      IsDomestic-continue (require_namespace allowed namespace s) _ (ground arith) (λ _ t.
        IsDomestic-continue (get_pod_health namespace name t) _
          (get_pod_health-IsDomestic namespace name t)
          (λ pod u. IsDomestic-ensure (is_demo_target pod.labels) _ _ _ u (
            IsDomestic-ensure (pod.controller_managed && is_text pod.controller_kind "ReplicaSet") _
              _ _ u
              (IsDomestic-ensure (not pod.ready) _ _ _ u (
                or_api_error-IsDomestic (P.remove_pod namespace name u.world).0 _ _ _
                  (λ e reachable. reachable.removal namespace name u.world e))))))

module _ {P : Platform} {scope : Scope P} where
  delete_pod-IsGood :
      (allowed : List String) (namespace name : String) (attempt : ℕ) (s : Session P)
      → IsAllowing scope.chosen namespace name s.calls
      → IsGood scope attempt s
      → IsGood scope attempt (delete_pod allowed namespace name s).1
  delete_pod-IsGood allowed namespace name attempt s allowing h =
      let (live, committed, calls) = delete_pod-guarded allowed namespace name s in
      record {
        safe = record {
          authorized = elim calls [
            | inl same ↦ rw same h.safe.authorized
            | inr (requested, _, _) ↦ rw requested (pod_deleted allowing h.safe.authorized)
          ];
          unresolved = rw committed h.safe.unresolved;
        };
        active = rw live h.active;
        attempts = rw live h.attempts;
      }

  delete_pod-Holds :
      (allowed : List String) (namespace name : String) (attempt : ℕ) (s : Session P)
      → IsAllowing scope.chosen namespace name s.calls
      → IsGood scope attempt s
      → Holds scope (λ _ t. IsGood scope attempt t) (delete_pod allowed namespace name s)
  delete_pod-Holds allowed namespace name attempt s allowing h =
      let good = delete_pod-IsGood allowed namespace name attempt s allowing h in
      Holds-of scope (λ _ t. IsGood scope attempt t) (delete_pod allowed namespace name s)
        (delete_pod-IsDomestic allowed namespace name s) good.safe (λ _ _. good)

  delete_current-Holds :
      (settings : Settings) (who : Actor) (target : UnhealthyPodTarget) (plan : Plan)
      (execution : ActionExecution) (pod : Option PodState) (attempt : ℕ) (s : Session P)
      → execution.attempt < attempt
      → MayDelete scope target pod s.calls
      → IsGood scope attempt s
      → Holds scope
          (λ _ t. IsGood scope attempt t)
          (delete_current settings who target plan execution pod s)
  unfolding delete_current outside save_execution audit_row
  delete_current-Holds settings who target plan execution none attempt s below may h = record {
    safe = record { authorized = h.safe.authorized; unresolved = h.safe.unresolved };
    active = h.active;
    attempts = AttemptsBelow-update_where attempt execution.id _ s.live.executions below h.attempts;
  }
  delete_current-Holds settings who target plan execution (some pod) attempt s below may h =
      Holds-continue scope _ _ (delete_pod settings.allowed_namespaces target.namespace pod.name s)
        _ (delete_pod-Holds settings.allowed_namespaces target.namespace pod.name attempt s may h)
        (λ _ t good. record {
          safe = record { authorized = good.safe.authorized; unresolved = good.safe.unresolved };
          active = good.active;
          attempts =
              AttemptsBelow-update_where attempt execution.id _ t.live.executions below
                good.attempts;
        })

  pub execute_round-Holds :
      (settings : Settings) (who : Actor) (target : UnhealthyPodTarget) (plan : Plan) (attempt : ℕ)
      (pod : Option PodState) (s : Session P)
      → 1 ≤ attempt
      → attempt ≤ 3
      → MayDelete scope target pod s.calls
      → IsGood scope attempt s
      → Holds scope
          (λ _ t. IsGood scope (attempt + 1) t × (t.live.incident.state ≡ verifying))
          (execute_round settings who target plan attempt pod s)
  unfolding execute_round
  execute_round-Holds settings who target plan attempt pod s one three may h =
      let u = (on_rows (set_incident (λ i. record i { retry_count = attempt })) s).1 in
      let execution = round_execution u.live.next_id u.live.incident.id plan.proposal.id attempt in
      let v = with_row execution u in
      let good : IsGood scope (attempt + 1) v = record {
        safe = record { authorized = h.safe.authorized; unresolved = h.safe.unresolved };
        active = h.active;
        attempts = (
          round_execution-attempt _ _ _ attempt,
          AttemptsBelow-suc attempt s.live.executions h.attempts,
        );
      } in
      rw
        (insert_execution-with_row execution u
          (round_execution-may_insert _ _ _ attempt s.live.executions one three h.attempts))
        (Holds-continue scope _ _ (delete_current settings who target plan execution pod v) _
          (delete_current-Holds settings who target plan execution pod (attempt + 1) v
            (round_execution-attempt _ _ _ attempt) may good)
          (λ _ t good.
            Holds-continue scope _ _ (change settings who verifying no_details t) _
              (change-Holds settings who verifying no_details (attempt + 1) t (λ e. cc) good)
              (λ _ x changed. (
                IsGood-same (attempt + 1) x _ refl refl refl changed.0.active changed.0,
                changed.1,
              ))))
