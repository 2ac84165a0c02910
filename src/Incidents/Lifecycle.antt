-- ===== src/Incidents/Lifecycle.antt =====
-- What the operations of backend/app/incidents/service.py keep true of an incident.
use cloud_ward.Prelude.{
  ℕ, ◌+◌, subst, Bool-cases, inl, inr, ◌≡◌, ◌≢◌, ◌⊎◌, refl, String, true, false, Option, none, some,
  List, [], ◌∷◌, arith, if◌then◌else◌,
}
use cloud_ward.Errors.{ok, err, cloud_ward_error, invalid_incident_transition}
use cloud_ward.Incidents.Machine.{
  IncidentState, blocked, awaiting_approval, resolved, escalated, same_state, is_terminal,
  transition_incident,
}
use cloud_ward.Store.Records.{ActorType, IncidentEvent, ResolutionSource}
use cloud_ward.Store.Case.{Case}
use cloud_ward.Settings.{Settings}
use cloud_ward.Platform.{Platform}
use cloud_ward.Exec.{Session, outside}
use cloud_ward.Incidents.Service.{Details, apply_change, change_incident_state, resolve_incident}

same_state-eq : (a b : IncidentState) → same_state a b ≡ true → a ≡ b
same_state-eq a b h = ground arith

-- What a change to `target` does to a session, and all that it leaves alone.
pub record IsApplied {P : Platform} (previous target : IncidentState) (actor : String)
    (actor_type : ActorType) (s t : Session P) : Type 0 where
  pub in_target : t.live.incident.state ≡ target
  pub same_id : t.live.incident.id ≡ s.live.incident.id
  pub same_retries : t.live.incident.retry_count ≡ s.live.incident.retry_count
  pub recorded :
      t.live.timeline
      ≡ record {
        event_type = "STATE_CHANGED";
        from_state = some previous;
        to_state = target;
        actor = actor;
        actor_type = actor_type;
      }
        ∷ s.live.timeline
  pub same_proposals : t.live.proposals ≡ s.live.proposals
  pub same_decisions : t.live.decisions ≡ s.live.decisions
  pub same_executions : t.live.executions ≡ s.live.executions
  pub same_runbooks : t.live.runbook_executions ≡ s.live.runbook_executions
  pub same_committed : t.committed ≡ s.committed
  pub same_calls : t.calls ≡ s.calls
  pub same_opened : t.opened ≡ s.opened
  pub counted : t.closed ≡ (if is_terminal target then s.closed + 1 else s.closed)

module _ {P : Platform} where
  apply_change-lem :
      (settings : Settings) (previous target : IncidentState) (actor : String)
      (actor_type : ActorType) (details : Details) (s : Session P)
      → let r = apply_change settings previous target actor actor_type details s in
        (r.0 ≡ ok tt) × IsApplied previous target actor actor_type s r.1
  unfolding apply_change outside
  apply_change-lem settings previous awaiting_approval actor actor_type details s = ground arith
  apply_change-lem settings previous _ actor actor_type details s = ground arith

transition-cases :
    (a b : IncidentState)
    → (transition_incident a b ≡ ok b)
      ⊎ (transition_incident a b ≡ err (cloud_ward_error invalid_incident_transition 409))
unfolding transition_incident
transition-cases a b = ground arith

pub same_state_refl : (a : IncidentState) → same_state a a ≡ true
same_state_refl a = ground arith

-- An unforced change of an incident's state ends in one of three ways. It changes nothing, if the
-- incident is in the target state; or it is applied, if the table allows the transition; or it
-- raises INVALID_INCIDENT_TRANSITION with status 409 and leaves the session as it was.
pub change_incident_state-checked :
    {P : Platform} (settings : Settings) (target : IncidentState) (actor : String)
    (actor_type : ActorType) (details : Details) (s : Session P)
    → let current = s.live.incident.state in
      let r = change_incident_state settings target actor actor_type details false s in
      ((current ≡ target) × (r ≡ (ok tt, s)))
      ⊎ ((current ≢ target)
          × (transition_incident current target ≡ ok target)
          × (r.0 ≡ ok tt)
          × IsApplied current target actor actor_type s r.1)
      ⊎ ((current ≢ target)
          × (transition_incident current target ≢ ok target)
          × (r ≡ (err (cloud_ward_error invalid_incident_transition 409), s)))
unfolding change_incident_state
change_incident_state-checked settings target actor actor_type details s =
    elim (Bool-cases (same_state s.live.incident.state target)) [
      | inl same ↦ inl (same_state-eq _ _ same, rw same refl)
      | inr other ↦
          let differs : s.live.incident.state ≢ target = λ e.
            cc (subst (λ t. same_state s.live.incident.state t ≡ true) e (same_state_refl _)) in
          elim (transition-cases s.live.incident.state target) [
            | inl allowed ↦ inr (
                inl (
                  differs,
                  allowed,
                  rw (other, allowed)
                      (apply_change-lem settings _ target actor actor_type details s).0,
                  rw (other, allowed)
                      (apply_change-lem settings _ target actor actor_type details s).1,
                ))
            | inr refused ↦ inr (inr (differs, rw refused (λ e. cc), rw (other, refused) refl))
          ]
    ]

-- 1 for an incident that the gauge ACTIVE_INCIDENTS should count.
abbrev pub active : IncidentState → ℕ
active state = if is_terminal state then 0 else 1

allowed-not_terminal :
    (a b : IncidentState) → transition_incident a b ≡ ok b → is_terminal a ≡ false
unfolding transition_incident
allowed-not_terminal a b h = ground arith

-- An unforced change moves the gauge by exactly what the incident's activity changes: it is taken
-- down once when the incident becomes settled, and never otherwise.
pub change_incident_state-gauge :
    {P : Platform} (settings : Settings) (target : IncidentState) (actor : String)
    (actor_type : ActorType) (details : Details) (s : Session P)
    → let t = (change_incident_state settings target actor actor_type details false s).1 in
      (t.opened ≡ s.opened)
      × (t.closed + active t.live.incident.state ≡ s.closed + active s.live.incident.state)
change_incident_state-gauge settings target actor actor_type details s =
    elim (change_incident_state-checked settings target actor actor_type details s) [
      | inl (same, e) ↦ rw e (refl, refl)
      | inr (inl (_, allowed, _, a)) ↦ (
        a.same_opened,
        rw a.in_target (ground (arith, a.counted, allowed-not_terminal _ _ allowed)),
      )
      | inr (inr (_, _, e)) ↦ rw e (refl, refl)
    ]

-- One entry of a timeline, after a state.
abbrev pub step : Option IncidentState → Option IncidentState → IncidentState → Option IncidentState
step none none to_state = some to_state
step (some a) (some b) to_state = if same_state a b then some to_state else none
step _ _ to_state = none

-- The state that a timeline (newest first) leads to, if each entry starts where the one before it
-- ended.
abbrev pub replay : List IncidentEvent → Option IncidentState
replay [] = none
replay (e ∷ older) = step (replay older) e.from_state e.to_state

-- The timeline of an incident explains its state.
abbrev pub IsExplained : Case → Type 0
IsExplained c = replay c.timeline ≡ some c.incident.state

-- An unforced change keeps a timeline that explains the incident's state.
pub change_incident_state-IsExplained :
    {P : Platform} (settings : Settings) (target : IncidentState) (actor : String)
    (actor_type : ActorType) (details : Details) (s : Session P)
    → IsExplained s.live
    → IsExplained (change_incident_state settings target actor actor_type details false s).1.live
change_incident_state-IsExplained settings target actor actor_type details s h =
    elim (change_incident_state-checked settings target actor actor_type details s) [
      | inl (same, e) ↦ rw e h
      | inr (inl (_, _, _, a)) ↦
          rw (a.recorded, a.in_target, h, same_state_refl s.live.incident.state) refl
      | inr (inr (_, _, e)) ↦ rw e h
    ]

-- `resolve_incident` forces the transition. On an incident that is already settled as BLOCKED or
-- ESCALATED it succeeds and takes the gauge down a second time, for the same incident.
pub resolve_incident-counts_twice :
    {P : Platform} (settings : Settings) (actor : String) (actor_type : ActorType) (reason : String)
    (source : ResolutionSource) (s : Session P)
    → (s.live.incident.state ≡ blocked) ⊎ (s.live.incident.state ≡ escalated)
    → let r = resolve_incident settings actor actor_type reason source s in
      (r.0 ≡ ok tt)
      × (r.1.live.incident.state ≡ resolved)
      × (r.1.closed + active r.1.live.incident.state ≡ s.closed + active s.live.incident.state + 1)
unfolding resolve_incident change_incident_state apply_change outside
resolve_incident-counts_twice settings actor actor_type reason source s (inl h) = ground arith
resolve_incident-counts_twice settings actor actor_type reason source s (inr h) = ground arith
