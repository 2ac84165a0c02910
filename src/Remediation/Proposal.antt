-- ===== src/Remediation/Proposal.antt =====
-- What the proposal of the pipeline and the policy's answer on it keep true.
use cloud_ward.Prelude.{ℕ, ◌≡◌, ◌≤◌, refl, String, Bool, true, none, some, arith}
use cloud_ward.Errors.{ok}
use cloud_ward.Incidents.Machine.{policy_evaluation}
use cloud_ward.Incidents.Service.{no_details, audit_row, set_incident}
use cloud_ward.Actions.Registry.{
  ActionType, ActionMetadata, action_registry, executable_in, typed, require_executable_action,
}
use cloud_ward.Risk.Floats.{Floats}
use cloud_ward.Risk.Engine.{RiskResult, context_is_valid, calculate}
use cloud_ward.Risk.Bounds.{calculate-in_bands}
use cloud_ward.Store.Records.{environment_value}
use cloud_ward.Settings.{Settings}
use cloud_ward.Platform.{Platform, PodState, PolicyResult}
use cloud_ward.Policy.{checked_input, evaluate}
use cloud_ward.Exec.{Exec, Session, outside, on_rows, lift, rows, ◌>>=◌, ◌>>◌}
use cloud_ward.Runbooks.Schema.{RunbookDocument}
use cloud_ward.Remediation.Plan.{
  UnhealthyPodTarget, Actor, Plan, pipeline_context, policy_input, new_proposal,
  proposal_parameters, add_proposal, add_decision, or_invalid, change, audit, propose_action,
  ask_policy,
}
use cloud_ward.Remediation.Holds.{
  Scope, policy_asked, IsAllowing, IsGood, Holds, Holds-continue, Holds-of, IsDomestic, IsGood-same,
}
use cloud_ward.Remediation.Steps.{change-Holds}

executable_in-IsDomestic :
    (P : Platform) (environment : String) (metadata : ActionMetadata)
    → IsDomestic P (executable_in environment metadata)
executable_in-IsDomestic P environment metadata = ground arith

require_executable_action-IsDomestic :
    (P : Platform) (action : ActionType) (environment : String)
    → IsDomestic P (require_executable_action (typed action) environment)
unfolding require_executable_action
require_executable_action-IsDomestic P action environment =
    executable_in-IsDomestic P environment (action_registry action)

pipeline_context_is_valid :
    (F : Floats) (target : UnhealthyPodTarget) (action : ActionType) (reversible : Bool)
    → context_is_valid F (pipeline_context F target action reversible) ≡ true
unfolding context_is_valid
pipeline_context_is_valid F target required reversible =
    ground (arith, F.hundredths_mono 0 98 (omega arith), F.hundredths_mono 98 100 (omega arith))

-- A plan of the chosen runbook: its risk is a score, and its proposal has the runbook's action.
abbrev pub IsPlanned : {P : Platform} → Scope P → Plan → Type 0
IsPlanned scope plan =
    (plan.risk.score ≤ 100)
    × (scope.chosen ≡ some plan.runbook)
    × (plan.proposal.action_type ≡ plan.runbook.action)

module _ {P : Platform} where
  -- The rows of a proposal.
  abbrev proposed :
      Actor → UnhealthyPodTarget → PodState → ActionType → RiskResult → Exec P (Unit {0})
  proposed who target pod action risk = do
    on_rows (set_incident (λ i. record i { risk_score = some risk.score }))
    c ← rows
    on_rows (
        add_proposal
          (new_proposal c.next_id c.incident.id action (proposal_parameters target pod) risk))
    audit who "ACTION_PROPOSED" (some action) (some risk.score) none "SUCCEEDED"
    audit who "RISK_CALCULATED" (some action) (some risk.score) none "SUCCEEDED"

  checked_input-passes :
      (target : UnhealthyPodTarget) (pod : PodState) (action : ActionType) (risk : RiskResult)
      (s : Session P)
      → risk.score ≤ 100
      → let input = policy_input P.floats target pod action risk in
        checked_input input s ≡ (ok input, s)
  unfolding checked_input policy_input
  checked_input-passes target pod required risk s h = ground (
    arith,
    P.floats.hundredths_mono 0 98 (omega arith),
    P.floats.hundredths_mono 98 100 (omega arith),
  )

module _ {P : Platform} {scope : Scope P} where
  risk-Holds :
      (target : UnhealthyPodTarget) (action : ActionType) (reversible : Bool) (attempt : ℕ)
      (s : Session P)
      → IsGood scope attempt s
      → Holds scope
          (λ (risk : RiskResult) t. IsGood scope attempt t × (risk.score ≤ 100))
          (or_invalid (calculate P.floats (pipeline_context P.floats target action reversible)) s)
  risk-Holds target action reversible attempt s h =
      let (_, e, _, _, le, _) =
        calculate-in_bands P.floats (pipeline_context P.floats target action reversible)
          (pipeline_context_is_valid P.floats target action reversible) in
      rw e (h, le)

  pub ask_policy-Holds :
      (target : UnhealthyPodTarget) (pod : PodState) (action : ActionType) (risk : RiskResult)
      (proposal_id attempt : ℕ) (s : Session P)
      → risk.score ≤ 100
      → ((q : RunbookDocument) × (scope.chosen ≡ some q) × (action ≡ q.action))
      → IsGood scope attempt s
      → Holds scope
          (λ (policy : PolicyResult) t.
            IsGood scope attempt t
            × (policy.allowed ≡ true → IsAllowing scope.chosen target.namespace pod.name t.calls))
          (ask_policy target pod action risk proposal_id s)
  unfolding ask_policy evaluate policy_input outside add_decision
  ask_policy-Holds target pod action risk proposal_id attempt s le choice h =
      rw (checked_input-passes target pod action risk s le) (
        record {
          safe = record {
            authorized = policy_asked h.safe.authorized;
            unresolved = h.safe.unresolved;
          };
          active = h.active;
          attempts = h.attempts;
        },
        λ allowed. (allowed, refl, refl, choice),
      )

  pub propose_action-Holds :
      (settings : Settings) (who : Actor) (target : UnhealthyPodTarget) (pod : PodState)
      (selected : RunbookDocument × ℕ) (attempt : ℕ) (s : Session P)
      → scope.chosen ≡ some selected.0
      → IsGood scope attempt s
      → Holds scope
          (λ (plan : Plan) t. IsGood scope attempt t × IsPlanned scope plan)
          (propose_action settings who target pod selected s)
  unfolding propose_action new_proposal add_proposal audit_row
  propose_action-Holds settings who target pod selected attempt s choice h =
      Holds-continue scope _ _
        (lift
          (require_executable_action (typed selected.0.action)
            (environment_value target.environment))
          s)
        _
        (Holds-of scope (λ _ t. IsGood scope attempt t) _
          (require_executable_action-IsDomestic P selected.0.action
            (environment_value target.environment))
          h.safe (λ _ _. h))
        (λ metadata t good.
          Holds-continue scope _ _
            (or_invalid
              (calculate P.floats
                (pipeline_context P.floats target selected.0.action metadata.reversible))
              t)
            _ (risk-Holds target selected.0.action metadata.reversible attempt t good)
            (λ risk u found.
              let w = (proposed who target pod selected.0.action risk u).1 in
              Holds-continue scope _ _ (change settings who policy_evaluation no_details w) _
                (change-Holds settings who policy_evaluation no_details attempt w (λ e. cc)
                  (IsGood-same attempt u w refl refl refl found.0.safe.unresolved found.0))
                (λ _ v changed. (changed.0, (found.1, choice, refl)))))
