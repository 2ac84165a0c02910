-- ===== src/Tests/Incidents.antt =====
-- State changes of concrete incidents.
use cloud_ward.Prelude.{◌+◌, ◌≡◌, ◌≢◌, ◌⊎◌, refl, inl, true, false, none, some, List, [], ◌∷◌}
use cloud_ward.Errors.{ok, err, cloud_ward_error, invalid_incident_transition}
use cloud_ward.Incidents.Machine.{
  IncidentState, detected, collecting_evidence, classifying, action_proposed, policy_evaluation,
  executing, verifying, resolved, blocked, escalated, awaiting_approval, transition_incident,
}
use cloud_ward.Incidents.Reach.{Trace, stop, move, milestones, passes, Trace-passes-milestones}
use cloud_ward.Incidents.Service.{no_details, change_incident_state, resolve_incident}
use cloud_ward.Incidents.Lifecycle.{
  IsApplied, IsExplained, active, change_incident_state-checked, change_incident_state-gauge,
  change_incident_state-IsExplained, resolve_incident-counts_twice,
}
use cloud_ward.Store.Records.{system, user, undecided, human_action}
use cloud_ward.Exec.{Session}
use cloud_ward.Tests.World.{demo, demo_settings, rows_in, session_on, waiting}

change_incident_state-checked_example :
    let r =
      change_incident_state {P = demo} demo_settings blocked "boss" user no_details false
        (waiting 40) in
    ((awaiting_approval ≡ blocked) × (r ≡ (ok tt, waiting 40)))
    ⊎ ((awaiting_approval ≢ blocked)
        × (transition_incident awaiting_approval blocked ≡ ok blocked)
        × (r.0 ≡ ok tt)
        × IsApplied awaiting_approval blocked "boss" user (waiting 40) r.1)
    ⊎ ((awaiting_approval ≢ blocked)
        × (transition_incident awaiting_approval blocked ≢ ok blocked)
        × (r ≡ (err (cloud_ward_error invalid_incident_transition 409), waiting 40)))
change_incident_state-checked_example =
    change_incident_state-checked demo_settings blocked "boss" user no_details (waiting 40)

change_incident_state-gauge_example :
    let t =
      (change_incident_state {P = demo} demo_settings blocked "boss" user no_details false
        (waiting 40)).1 in
    (t.opened ≡ 1) × (t.closed + active t.live.incident.state ≡ 0 + active awaiting_approval)
change_incident_state-gauge_example =
    change_incident_state-gauge demo_settings blocked "boss" user no_details (waiting 40)

-- An incident that was detected and moved once.
abbrev moved_once : Session demo
moved_once = session_on (record (rows_in collecting_evidence undecided 40) {
  timeline =
      record {
        event_type = "STATE_CHANGED";
        from_state = some detected;
        to_state = collecting_evidence;
        actor = "cloudward";
        actor_type = system;
      }
      ∷ record {
        event_type = "INCIDENT_CREATED";
        from_state = none;
        to_state = detected;
        actor = "cloudward";
        actor_type = system;
      }
      ∷ [];
})

change_incident_state-IsExplained_example :
    IsExplained
      (change_incident_state {P = demo} demo_settings escalated "boss" user no_details false
        moved_once).1.live
change_incident_state-IsExplained_example =
    change_incident_state-IsExplained demo_settings escalated "boss" user no_details moved_once refl

abbrev settled : Session demo
settled = session_on (rows_in blocked undecided 40)

resolve_incident-counts_twice_example :
    let r =
      resolve_incident {P = demo} demo_settings "boss" user "closed by hand" human_action settled in
    (r.0 ≡ ok tt)
    × (r.1.live.incident.state ≡ resolved)
    × (r.1.closed + active r.1.live.incident.state ≡ 0 + active blocked + 1)
resolve_incident-counts_twice_example =
    resolve_incident-counts_twice demo_settings "boss" user "closed by hand" human_action settled
      (inl refl)

abbrev shortest : List IncidentState
shortest =
    collecting_evidence ∷ classifying ∷ action_proposed ∷ policy_evaluation ∷ executing ∷ verifying
    ∷ resolved ∷ []

resolving-Trace : Trace detected shortest resolved
unfolding transition_incident
resolving-Trace =
    move refl (move refl (move refl (move refl (move refl (move refl (move refl stop))))))

Trace-passes-milestones_example : passes shortest milestones ≡ true
Trace-passes-milestones_example = Trace-passes-milestones resolving-Trace
