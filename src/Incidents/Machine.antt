-- ===== src/Incidents/Machine.antt =====
-- backend/app/incidents/state_machine.py: the states of an incident, the table of allowed
-- transitions, and the check of one transition.
use cloud_ward.Prelude.{ℕ, Bool, true, false, List, [], ◌∷◌, ◌||◌, ◌==◌, if◌then◌else◌}
use cloud_ward.Errors.{Result, ok, raised, invalid_incident_transition}

pub data IncidentState : Type 0 where
  detected collecting_evidence classifying diagnosing action_proposed : IncidentState
  policy_evaluation awaiting_approval executing verifying rollback : IncidentState
  resolved blocked escalated : IncidentState

-- The position in the enumeration, by which two states are compared.
abbrev pub state_index : IncidentState → ℕ
state_index detected = 0
state_index collecting_evidence = 1
state_index classifying = 2
state_index diagnosing = 3
state_index action_proposed = 4
state_index policy_evaluation = 5
state_index awaiting_approval = 6
state_index executing = 7
state_index verifying = 8
state_index rollback = 9
state_index resolved = 10
state_index blocked = 11
state_index escalated = 12

abbrev pub same_state : IncidentState → IncidentState → Bool
same_state a b = state_index a == state_index b

abbrev pub in_states : IncidentState → List IncidentState → Bool
in_states s [] = false
in_states s (t ∷ rest) = same_state s t || in_states s rest

-- ALLOWED_TRANSITIONS
abbrev pub allowed_transitions : IncidentState → List IncidentState
allowed_transitions detected = collecting_evidence ∷ blocked ∷ escalated ∷ []
allowed_transitions collecting_evidence = classifying ∷ blocked ∷ escalated ∷ []
allowed_transitions classifying = diagnosing ∷ action_proposed ∷ blocked ∷ escalated ∷ []
allowed_transitions diagnosing = action_proposed ∷ blocked ∷ escalated ∷ []
allowed_transitions action_proposed = policy_evaluation ∷ blocked ∷ escalated ∷ []
allowed_transitions policy_evaluation = awaiting_approval ∷ executing ∷ blocked ∷ escalated ∷ []
allowed_transitions awaiting_approval = policy_evaluation ∷ executing ∷ blocked ∷ escalated ∷ []
allowed_transitions executing = verifying ∷ rollback ∷ escalated ∷ []
allowed_transitions verifying = executing ∷ rollback ∷ resolved ∷ escalated ∷ []
allowed_transitions rollback = verifying ∷ resolved ∷ escalated ∷ []
allowed_transitions resolved = []
allowed_transitions blocked = []
allowed_transitions escalated = []

unfoldable pub transition_incident : IncidentState → IncidentState → Result IncidentState
transition_incident current target =
    if in_states target (allowed_transitions current)
    then ok target
    else raised invalid_incident_transition 409

-- `target in {RESOLVED, BLOCKED, ESCALATED}`
abbrev pub is_terminal : IncidentState → Bool
is_terminal resolved = true
is_terminal blocked = true
is_terminal escalated = true
is_terminal _ = false
