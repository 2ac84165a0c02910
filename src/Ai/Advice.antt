-- ===== src/Ai/Advice.antt =====
-- What an evaluation of a model's suggestion may do: it asks the policy once at most.
use cloud_ward.Prelude.{
  ℕ, ◌≡◌, ◌⊎◌, ◌↔◌, inl, inr, refl, String, Bool, true, false, Option, none, some, List, [], ◌∷◌,
  str_eq, has_text, eq_iff, arith, if◌then◌else◌,
}
use cloud_ward.Errors.{
  ErrorCode, ai_diagnosis_unavailable, ai_action_not_suggested, action_environment_denied, Result,
  ok, err, python_error, validation_error,
}
use cloud_ward.Actions.Registry.{ActionMetadata, action_registry, action_value, get_action_metadata}
use cloud_ward.Risk.Engine.{RiskResult, calculate}
use cloud_ward.Store.Records.{ActionProposal, PolicyDecision, pending, rejected, environment_value}
use cloud_ward.Platform.{Platform, PolicyInput, PolicyResult}
use cloud_ward.Policy.{read_reply, checked_input, evaluate}
use cloud_ward.Exec.{Exec, Session, evaluated, outside, continue, pure, raise}
use cloud_ward.Kubernetes.Executor.{ensure}
use cloud_ward.Remediation.Plan.{or_invalid}
use cloud_ward.Ai.Boundary.{
  AiDiagnosis, AiActionRequest, AiActionGateResult, ServiceRow, available, existing_gate_result,
  service_of, advice_context, advice_input, advice_status, advised_proposal, user_audit,
  record_advice, gate_candidate, gate_or_existing, evaluate_ai_action_candidate,
}

-- A return with one assertion, or a raise with another.
abbrev pub Ends {ℓ} :
    {P : Platform} {A : Type ℓ}
    → (A → Session P → Type 0)
    → (Session P → Type 0)
    → Result A × Session P
    → Type 0
Ends Q E (ok a, t) = Q a t
Ends Q E (err e, t) = E t

pub Ends-continue {ℓ κ} :
    {P : Platform} {A : Type ℓ} {B : Type κ} (Q : A → Session P → Type 0)
    (R : B → Session P → Type 0) (E : Session P → Type 0) (q : Result A × Session P)
    (f : A → Exec P B)
    → Ends Q E q
    → ((a : A) (t : Session P) → Q a t → Ends R E (f a t))
    → Ends R E (continue q f)
Ends-continue Q R E (ok a, t) f h k = k a t h
Ends-continue Q R E (err e, t) f h k = h

pub Ends-if {ℓ} :
    {P : Platform} {A : Type ℓ} (Q : A → Session P → Type 0) (E : Session P → Type 0) (test : Bool)
    (m n : Exec P A) (s : Session P)
    → (test ≡ true → Ends Q E (m s))
    → (test ≡ false → Ends Q E (n s))
    → Ends Q E ((if test then m else n) s)
Ends-if Q E true m n s h k = h refl
Ends-if Q E false m n s h k = k refl

pub Ends-map {ℓ} :
    {P : Platform} {A : Type ℓ} (Q R : A → Session P → Type 0) (E : Session P → Type 0)
    (q : Result A × Session P)
    → ((a : A) (t : Session P) → Q a t → R a t)
    → Ends Q E q
    → Ends R E q
Ends-map Q R E (ok a, t) f h = f a t h
Ends-map Q R E (err e, t) f h = h

-- Nothing is executed, approved, moved or committed, and OPA is asked once at most.
pub record IsAdvisory {P : Platform} (s t : Session P) : Type 0 where
  pub same_incident : t.live.incident ≡ s.live.incident
  pub same_executions : t.live.executions ≡ s.live.executions
  pub same_approvals : t.live.approvals ≡ s.live.approvals
  pub same_committed : t.committed ≡ s.committed
  pub only_asks :
      (t.calls ≡ s.calls)
      ⊎ ((input : PolicyInput P.floats) × (policy : PolicyResult) × (t.calls
            ≡ evaluated input policy ∷ s.calls))

pub IsAdvisory-refl : {P : Platform} (s : Session P) → IsAdvisory s s
IsAdvisory-refl s = record {
  same_incident = refl;
  same_executions = refl;
  same_approvals = refl;
  same_committed = refl;
  only_asks = inl refl;
}

-- A new proposal, as the answer of the policy on this action has made it.
pub record IsProposed {P : Platform} (d : AiDiagnosis P.floats) (request : AiActionRequest)
    (g : AiActionGateResult P.floats) (s t : Session P) : Type 0 where
  pub asked :
      (input : PolicyInput P.floats) × (policy : PolicyResult) × (t.calls
        ≡ evaluated input policy ∷ s.calls)
      × (input.action ≡ request.action)
      × (input.approval.approved ≡ false)
      × ((g.proposal.status ≡ pending)
          ↔ ((policy.allowed ≡ true) ⊎ (policy.requires_approval ≡ true)))
      × ((g.proposal.status ≡ pending) ⊎ (g.proposal.status ≡ rejected))
      × (g.decision.allowed ≡ policy.allowed)
      × (g.decision.requires_approval ≡ policy.requires_approval)
  pub from_diagnosis : g.diagnosis ≡ d
  pub row :
      (risk : RiskResult) × (policy : PolicyResult) × (g.proposal
        ≡ advised_proposal s.live.next_id s.live.incident.id d.id request.action risk policy)
  pub of_proposal : g.decision.proposal_id ≡ g.proposal.id
  pub proposals : t.live.proposals ≡ g.proposal ∷ s.live.proposals
  pub decisions : t.live.decisions ≡ g.decision ∷ s.live.decisions
  pub advisory : IsAdvisory s t

advice_status_iff :
    (policy : PolicyResult)
    → (advice_status policy ≡ pending)
      ↔ ((policy.allowed ≡ true) ⊎ (policy.requires_approval ≡ true))
advice_status_iff policy = ground arith

advice_status-cases :
    (policy : PolicyResult) → (advice_status policy ≡ pending) ⊎ (advice_status policy ≡ rejected)
advice_status-cases policy = ground arith

or_invalid-Ends :
    {P : Platform} (o : Option RiskResult) (s : Session P)
    → Ends (λ _ t. t ≡ s) (IsAdvisory s) (or_invalid o s)
or_invalid-Ends none s = IsAdvisory-refl s
or_invalid-Ends (some risk) s = refl

checked_input-Ends :
    {P : Platform} (input : PolicyInput P.floats) (s : Session P)
    → Ends (λ a t. (a ≡ input) × (t ≡ s)) (IsAdvisory s) (checked_input input s)
unfolding checked_input
checked_input-Ends {P} input s =
    Ends-if (λ a t. (a ≡ input) × (t ≡ s)) (IsAdvisory s) _ (pure input)
      (raise (python_error validation_error)) s (λ _. (refl, refl)) (λ _. IsAdvisory-refl s)

module _ {P : Platform} (services : ℕ → Option ServiceRow) (diagnosis : AiDiagnosis P.floats)
    (request : AiActionRequest) (metadata : ActionMetadata) (actor : String) (actor_id : ℕ) where
  asked_and_recorded :
      (risk : RiskResult) (input : PolicyInput P.floats) (s : Session P)
      → input.action ≡ request.action
      → input.approval.approved ≡ false
      → Ends
          (λ g t. IsProposed diagnosis request g s t)
          (IsAdvisory s)
          (continue
            (evaluate input s)
            (λ policy. record_advice diagnosis request actor actor_id risk policy))
  unfolding evaluate outside record_advice user_audit advised_proposal
  asked_and_recorded risk input s action approved = record {
    asked = (
      input,
      read_reply (P.post_policy input s.world).0,
      refl,
      action,
      approved,
      advice_status_iff (read_reply (P.post_policy input s.world).0),
      advice_status-cases (read_reply (P.post_policy input s.world).0),
      refl,
      refl,
    );
    from_diagnosis = refl;
    row = (risk, read_reply (P.post_policy input s.world).0, refl);
    of_proposal = refl;
    proposals = refl;
    decisions = refl;
    advisory = record {
      same_incident = refl;
      same_executions = refl;
      same_approvals = refl;
      same_committed = refl;
      only_asks = inr (input, read_reply (P.post_policy input s.world).0, refl);
    };
  }

  pub gate_candidate-IsProposed :
      (s : Session P)
      → Ends
          (λ g t. IsProposed diagnosis request g s t)
          (IsAdvisory s)
          (gate_candidate services diagnosis request metadata actor actor_id s)
  unfolding gate_candidate advice_input
  gate_candidate-IsProposed s =
      let environment = environment_value s.live.incident.environment in
      let service = service_of services s.live.incident.service_id in
      Ends-continue _ _ _
        (or_invalid
          (calculate P.floats
            (advice_context P.floats diagnosis request environment metadata.reversible))
          s)
        _ (or_invalid-Ends _ s)
        (λ risk t same.
          let input =
            advice_input P.floats diagnosis request service environment metadata.reversible risk in
          rw same (
            Ends-continue _ _ _ (checked_input input s) _ (checked_input-Ends input s)
              (λ checked u same. rw (same.0, same.1) (asked_and_recorded risk input s refl refl))))

-- The rows of an earlier evaluation, or a new proposal.
abbrev pub IsFound :
    {P : Platform}
    → AiDiagnosis P.floats
    → AiActionRequest
    → Session P
    → AiActionGateResult P.floats
    → Session P
    → Type 0
IsFound d request s g t =
    ((t ≡ s)
      × (g.diagnosis ≡ d)
      × (existing_gate_result d.id request.action s.live ≡ some (g.proposal, g.decision)))
    ⊎ IsProposed d request g s t

ensure-Ends :
    {P : Platform} (test : Bool) (code : ErrorCode) (status : ℕ) (s : Session P)
    → Ends (λ _ t. (test ≡ true) × (t ≡ s)) (IsAdvisory s) (ensure test code status s)
ensure-Ends true code status s = (refl, refl)
ensure-Ends false code status s = IsAdvisory-refl s

-- A result for the latest diagnosis, which suggested the action: the rows of an earlier evaluation,
-- or a new proposal.
abbrev pub IsGated :
    {P : Platform}
    → AiDiagnosis P.floats
    → AiActionRequest
    → Session P
    → AiActionGateResult P.floats
    → Session P
    → Type 0
IsGated d request s g t =
    (d.status ≡ "AVAILABLE")
    × (has_text (action_value request.action) d.action_candidates ≡ true)
    × (has_text (environment_value s.live.incident.environment)
          (action_registry request.action).allowed_environments
        ≡ true)
    × IsFound d request s g t

-- The latest diagnosis is the first one.
abbrev pub IsLatest :
    {P : Platform}
    → List (AiDiagnosis P.floats)
    → AiActionRequest
    → Session P
    → AiActionGateResult P.floats
    → Session P
    → Type 0
IsLatest [] request s g t = ⊥
IsLatest (d ∷ older) request s g t = IsGated d request s g t

module _ {P : Platform} (services : ℕ → Option ServiceRow) (request : AiActionRequest)
    (actor : String) (actor_id : ℕ) where
  existing-IsGated :
      (d : AiDiagnosis P.floats) (s : Session P) (found : Option (ActionProposal × PolicyDecision))
      → existing_gate_result d.id request.action s.live ≡ found
      → Ends (IsFound d request s) (IsAdvisory s) (
          gate_or_existing services d request
            (action_registry request.action)
            actor
            actor_id
            found
            s)
  existing-IsGated d s none h =
      Ends-map (λ g t. IsProposed d request g s t) (IsFound d request s) (IsAdvisory s) _
        (λ g t new. inr new)
        (gate_candidate-IsProposed services d request (action_registry request.action) actor
          actor_id s)
  existing-IsGated d s (some found) h = inl (refl, refl, h)

  -- An evaluation executes, approves, moves and commits nothing, and asks OPA once at most, also
  -- when it raises. It returns only for an available latest diagnosis that suggested the action, in
  -- an environment that the registry allows; the result is that of an earlier evaluation and the
  -- session is as it was, or it is a new proposal, whose status is PENDING exactly if OPA's answer
  -- on this unapproved action allows it or requires an approval, and REJECTED otherwise.
  pub evaluate_ai_action_candidate-IsGated :
      (diagnoses : List (AiDiagnosis P.floats)) (s : Session P)
      → Ends
          (IsLatest diagnoses request s)
          (IsAdvisory s)
          (evaluate_ai_action_candidate services diagnoses request actor actor_id s)
  unfolding evaluate_ai_action_candidate get_action_metadata
  evaluate_ai_action_candidate-IsGated [] s = IsAdvisory-refl s
  evaluate_ai_action_candidate-IsGated (d ∷ older) s =
      let environment = environment_value s.live.incident.environment in
      let allowed = (action_registry request.action).allowed_environments in
      Ends-continue (λ a t. (a ≡ d) × (str_eq d.status "AVAILABLE" ≡ true) × (t ≡ s)) _ _
        (available (d ∷ older) s) _
        (Ends-continue _ _ _ (ensure (str_eq d.status "AVAILABLE") ai_diagnosis_unavailable 409 s) _
          (ensure-Ends (str_eq d.status "AVAILABLE") ai_diagnosis_unavailable 409 s)
          (λ _ t h. (refl, h.0, h.1)))
        (λ a t h.
          rw (h.0, h.2)
            (Ends-continue _ _ _
              (ensure (has_text (action_value request.action) d.action_candidates)
                ai_action_not_suggested 422 s)
              _ (ensure-Ends _ ai_action_not_suggested 422 s)
              (λ _ u suggested. rw suggested.1 (
                Ends-continue _ _ _
                  (ensure (has_text environment allowed) action_environment_denied 403 s) _
                  (ensure-Ends _ action_environment_denied 403 s)
                  (λ _ v inside. rw inside.1 (
                    Ends-map (IsFound d request s) (IsGated d request s) (IsAdvisory s) _
                      (λ g w found.
                        ((eq_iff d.status "AVAILABLE").0 h.1, suggested.0, inside.0, found))
                      (existing-IsGated d s (existing_gate_result d.id request.action s.live)
                        refl)))))))
