-- ===== src/Incidents/Reach.antt =====
-- What every sequence of checked transitions of an incident satisfies.
use cloud_ward.Prelude.{◌≡◌, ◌≢◌, ◌⊎◌, refl, Bool, true, false, arith, if◌then◌else◌, List, [], ◌∷◌}
use cloud_ward.Errors.{ok}
use cloud_ward.Incidents.Machine.{
  IncidentState, detected, policy_evaluation, awaiting_approval, executing, verifying, rollback,
  resolved, escalated, in_states, transition_incident, is_terminal,
}

-- The states that `transition_incident` lets an incident pass through, oldest first.
pub data Trace : IncidentState → List IncidentState → IncidentState → Type 0 where
  stop : {s : IncidentState} → Trace s [] s
  move :
      {s t u : IncidentState} {path : List IncidentState}
      → transition_incident s t ≡ ok t
      → Trace t path u
      → Trace s (t ∷ path) u

-- A settled incident (RESOLVED, BLOCKED, ESCALATED) accepts no transition at all, and every other
-- state accepts the transition to ESCALATED.
pub escalation-iff_not_terminal :
    (s t : IncidentState)
    → ((is_terminal s ≡ true) × (transition_incident s t ≢ ok t))
      ⊎ ((is_terminal s ≡ false) × (transition_incident s escalated ≡ ok escalated))
unfolding transition_incident
escalation-iff_not_terminal s t = ground arith

-- Whether a path meets the sets of states in the given order.
unfoldable pub passes : List IncidentState → List (List IncidentState) → Bool
passes path [] = true
passes [] (m ∷ ms) = false
passes (s ∷ path) (m ∷ ms) =
    let hit = passes path ms in
    let missed = passes path (m ∷ ms) in if in_states s m then hit else missed

-- What an incident has to go through before it is RESOLVED.
abbrev pub milestones : List (List IncidentState)
milestones =
    (policy_evaluation ∷ []) ∷ (executing ∷ []) ∷ (verifying ∷ rollback ∷ []) ∷ (resolved ∷ []) ∷ []

abbrev remaining : IncidentState → List (List IncidentState)
remaining policy_evaluation = (executing ∷ []) ∷ (verifying ∷ rollback ∷ []) ∷ (resolved ∷ []) ∷ []
remaining awaiting_approval = (executing ∷ []) ∷ (verifying ∷ rollback ∷ []) ∷ (resolved ∷ []) ∷ []
remaining executing = (verifying ∷ rollback ∷ []) ∷ (resolved ∷ []) ∷ []
remaining verifying = (resolved ∷ []) ∷ []
remaining rollback = (resolved ∷ []) ∷ []
remaining resolved = []
remaining _ = milestones

passes-cons :
    (s : IncidentState) (path : List IncidentState)
    → ((m : List IncidentState) (ms : List (List IncidentState))
        → passes path (m ∷ ms) ≡ true
        → passes path ms ≡ true)
    → (ms : List (List IncidentState)) → passes path ms ≡ true
    → passes (s ∷ path) ms ≡ true
unfolding passes
passes-cons s path weaken [] h = refl
passes-cons s path weaken (m ∷ ms) h = ground (arith, weaken m ms)

passes-tail :
    (path : List IncidentState) (m : List IncidentState) (ms : List (List IncidentState))
    → passes path (m ∷ ms) ≡ true
    → passes path ms ≡ true
unfolding passes
passes-tail [] m ms h = cc
passes-tail (s ∷ path) m ms h =
    passes-cons s path (passes-tail path) ms (ground (arith, passes-tail path m ms))

passes-move :
    (s t : IncidentState) (path : List IncidentState)
    → transition_incident s t ≡ ok t
    → passes path (remaining t) ≡ true
    → passes (t ∷ path) (remaining s) ≡ true
unfolding passes transition_incident
passes-move s t path h k = ground (
  arith,
  passes-tail path (policy_evaluation ∷ []) late,
  passes-tail path (executing ∷ []) last,
  passes-tail path (verifying ∷ rollback ∷ []) ((resolved ∷ []) ∷ []),
  passes-tail path (resolved ∷ []) [],
)
  where
    last : List (List IncidentState)
    last = (verifying ∷ rollback ∷ []) ∷ (resolved ∷ []) ∷ []

    late : List (List IncidentState)
    late = (executing ∷ []) ∷ last

passes-remaining :
    {s : IncidentState} {path : List IncidentState}
    → Trace s path resolved
    → passes path (remaining s) ≡ true
unfolding passes
passes-remaining stop = refl
passes-remaining (move h r) = passes-move _ _ _ h (passes-remaining r)

-- An incident that reaches RESOLVED from DETECTED by checked transitions alone was in
-- POLICY_EVALUATION, after that in EXECUTING, and after that in VERIFYING or in ROLLBACK.
pub Trace-passes-milestones :
    {path : List IncidentState} → Trace detected path resolved → passes path milestones ≡ true
Trace-passes-milestones r = passes-remaining r
