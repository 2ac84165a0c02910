-- ===== src/Ai/Again.antt =====
-- An evaluation that is repeated finds what the first one has recorded.
use cloud_ward.Prelude.{
  ℕ, ◌≡◌, ◌⊎◌, inl, inr, refl, ap, sym, ◌∙◌, String, true, Option, some, List, [], ◌∷◌, str_eq,
  eq_iff, has_text, find, keep, arith,
}
use cloud_ward.Errors.{Exception, Result, ok, err}
use cloud_ward.Actions.Registry.{ActionType, action_registry, action_value, get_action_metadata}
use cloud_ward.Risk.Engine.{RiskResult}
use cloud_ward.Store.Records.{ActionProposal, PolicyDecision, environment_value}
use cloud_ward.Platform.{Platform, PolicyResult}
use cloud_ward.Exec.{Session}
use cloud_ward.Ai.Boundary.{
  AiDiagnosis, AiActionRequest, AiActionGateResult, ServiceRow, is_advised, is_advisory, limit,
  first_decided, existing_gate_result, advised_proposal, evaluate_ai_action_candidate,
}
use cloud_ward.Ai.Advice.{
  Ends, IsAdvisory, IsGated, IsLatest, IsProposed, evaluate_ai_action_candidate-IsGated,
}

str_eq_refl : (text : String) → str_eq text text ≡ true
str_eq_refl text = (eq_iff text text).1 refl

existing-head :
    (id next_id incident_id : ℕ) (action : ActionType) (risk : RiskResult) (policy : PolicyResult)
    (d : PolicyDecision) (ps : List ActionProposal) (ds : List PolicyDecision)
    → let p = advised_proposal next_id incident_id id action risk policy in
      d.proposal_id ≡ p.id
      → first_decided id (d ∷ ds) (limit 20 (keep (is_advisory action) (p ∷ ps))) ≡ some (p, d)
unfolding first_decided limit keep is_advisory is_advised find advised_proposal
existing-head id next_id incident_id action risk policy d ps ds h =
    rw (str_eq_refl (action_value action), h) (ground arith)

module _ {P : Platform} (services : ℕ → Option ServiceRow) (request : AiActionRequest)
    (actor : String) (actor_id : ℕ) where
  IsProposed-existing :
      (d : AiDiagnosis P.floats) (g : AiActionGateResult P.floats) (s t : Session P)
      → IsProposed d request g s t
      → existing_gate_result d.id request.action t.live ≡ some (g.proposal, g.decision)
  unfolding existing_gate_result
  IsProposed-existing d g s t h =
      let (risk, policy, e) = h.row in
      rw (h.proposals, h.decisions, e)
        (existing-head d.id s.live.next_id s.live.incident.id request.action risk policy g.decision
          s.live.proposals s.live.decisions (h.of_proposal ∙ ap (λ p. p.id) e))

  -- In a session that has the rows of an evaluation, the evaluation returns them.
  again :
      (d : AiDiagnosis P.floats) (older : List (AiDiagnosis P.floats))
      (g : AiActionGateResult P.floats) (t : Session P)
      → g.diagnosis ≡ d
      → d.status ≡ "AVAILABLE"
      → has_text (action_value request.action) d.action_candidates ≡ true
      → has_text
          (environment_value t.live.incident.environment)
          (action_registry request.action).allowed_environments
        ≡ true
      → existing_gate_result d.id request.action t.live ≡ some (g.proposal, g.decision)
      → evaluate_ai_action_candidate services (d ∷ older) request actor actor_id t ≡ (ok g, t)
  unfolding evaluate_ai_action_candidate get_action_metadata
  again d older g t same status suggested inside found =
      rw ((eq_iff d.status "AVAILABLE").1 status, suggested, inside, found, sym same) refl

  again-IsGated :
      (d : AiDiagnosis P.floats) (older : List (AiDiagnosis P.floats))
      (g : AiActionGateResult P.floats) (s t : Session P)
      → IsGated d request s g t
      → evaluate_ai_action_candidate services (d ∷ older) request actor actor_id t ≡ (ok g, t)
  again-IsGated d older g s t (status, suggested, inside, inl (same, latest, found)) =
      again d older g t latest status suggested (rw same inside) (rw same found)
  again-IsGated d older g s t (status, suggested, inside, inr new) =
      again d older g t new.from_diagnosis status suggested (rw new.advisory.same_incident inside)
        (IsProposed-existing d g s t new)

  settled :
      (diagnoses : List (AiDiagnosis P.floats)) (s : Session P)
      (r : Result (AiActionGateResult P.floats) × Session P)
      → Ends (IsLatest diagnoses request s) (IsAdvisory s) r
      → ((e : Exception) × (r.0 ≡ err e))
        ⊎ ((g : AiActionGateResult P.floats) × (r.0 ≡ ok g)
            × (evaluate_ai_action_candidate services diagnoses request actor actor_id r.1
                ≡ (ok g, r.1)))
  settled diagnoses s (err e, t) h = inl (e, refl)
  settled [] s (ok g, t) h = absurd h
  settled (d ∷ older) s (ok g, t) h = inr (g, refl, again-IsGated d older g s t h)

  -- An evaluation raises; or it returns a result, and the same evaluation in the session that it
  -- leaves returns that result again and changes nothing: no second proposal is made, and OPA is
  -- not asked a second time.
  pub evaluate_ai_action_candidate-again :
      (diagnoses : List (AiDiagnosis P.floats)) (s : Session P)
      → let r = evaluate_ai_action_candidate services diagnoses request actor actor_id s in
        ((e : Exception) × (r.0 ≡ err e))
        ⊎ ((g : AiActionGateResult P.floats) × (r.0 ≡ ok g)
            × (evaluate_ai_action_candidate services diagnoses request actor actor_id r.1
                ≡ (ok g, r.1)))
  evaluate_ai_action_candidate-again diagnoses s =
      settled diagnoses s _
        (evaluate_ai_action_candidate-IsGated services request actor actor_id diagnoses s)
