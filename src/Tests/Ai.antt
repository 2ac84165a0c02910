-- ===== src/Tests/Ai.antt =====
-- A model suggests the deletion of the demo pod, and its suggestion is evaluated twice.
use cloud_ward.Prelude.{◌≡◌, ◌⊎◌, true, none, some, Option, ℕ, List, [], ◌∷◌}
use cloud_ward.Errors.{Exception, ok, err}
use cloud_ward.Actions.Registry.{delete_unhealthy_pod}
use cloud_ward.Risk.Engine.{none_sensitive}
use cloud_ward.Ai.Boundary.{
  AiDiagnosis, AiActionRequest, AiActionGateResult, ServiceRow, evaluate_ai_action_candidate,
}
use cloud_ward.Ai.Advice.{Ends, IsAdvisory, IsLatest, evaluate_ai_action_candidate-IsGated}
use cloud_ward.Ai.Again.{evaluate_ai_action_candidate-again}
use cloud_ward.Tests.World.{whole_floats, demo, granted}

abbrev diagnoses : List (AiDiagnosis whole_floats)
diagnoses =
    record {
      id = 91;
      status = "AVAILABLE";
      confidence = some 80;
      action_candidates = "DELETE_UNHEALTHY_POD" ∷ [];
    }
    ∷ []

abbrev suggestion : AiActionRequest
suggestion = record {
  action = delete_unhealthy_pod;
  target_count = 1;
  namespace = some "cloudward-staging";
  resource_name = some "checkout-1";
  labels = ("app", "checkout") ∷ [];
  controller_managed = true;
  sensitivity = none_sensitive;
}

abbrev no_services : ℕ → Option ServiceRow
no_services id = none

evaluate_ai_action_candidate-IsGated_example :
    Ends
      (IsLatest {P = demo} diagnoses suggestion granted)
      (IsAdvisory granted)
      (evaluate_ai_action_candidate no_services diagnoses suggestion "boss" 1 granted)
evaluate_ai_action_candidate-IsGated_example =
    evaluate_ai_action_candidate-IsGated no_services suggestion "boss" 1 diagnoses granted

evaluate_ai_action_candidate-again_example :
    let r =
      evaluate_ai_action_candidate {P = demo} no_services diagnoses suggestion "boss" 1 granted in
    ((e : Exception) × (r.0 ≡ err e))
    ⊎ ((g : AiActionGateResult whole_floats) × (r.0 ≡ ok g)
        × (evaluate_ai_action_candidate no_services diagnoses suggestion "boss" 1 r.1
            ≡ (ok g, r.1)))
evaluate_ai_action_candidate-again_example =
    evaluate_ai_action_candidate-again no_services suggestion "boss" 1 diagnoses granted
