-- ===== src/Verification/Settled.antt =====
-- Where a recorded verdict leaves an incident that is being verified.
use cloud_ward.Prelude.{
  ℕ, ◌≡◌, ap, ◌∙◌, inl, inr, Bool-cases, not, ◌&&◌, refl, Bool, true, false, Option, some, ◌∷◌,
  arith, leb, if◌then◌else◌,
}
use cloud_ward.Errors.{Result, ok, err}
use cloud_ward.Incidents.Machine.{
  IncidentState, verifying, resolved, escalated, transition_incident,
}
use cloud_ward.Incidents.Service.{audit_row, change_incident_state, apply_change}
use cloud_ward.Store.Records.{Incident, ResolutionSource, VerificationRecord}
use cloud_ward.Store.Case.{append_stream_event}
use cloud_ward.Settings.{Settings}
use cloud_ward.Platform.{Platform}
use cloud_ward.Exec.{Session, outside, continue, pure}
use cloud_ward.Verification.Outcome.{
  new_verification, may_record, insert_verification, reverts_image, execution_of, move_by_verdict,
  persist_verification,
}

-- The state after a verdict.
abbrev pub settled_state : Bool → ℕ → IncidentState
settled_state true attempt = resolved
settled_state false attempt = if leb 3 attempt then escalated else verifying

move_by_verdict-lem :
    {P : Platform} (settings : Settings) (success : Bool) (attempt : ℕ) (source : ResolutionSource)
    (s : Session P)
    → s.live.incident.state ≡ verifying
    → let r = move_by_verdict settings success attempt source s in
      (r.0 ≡ ok tt)
      × (r.1.live.incident.state ≡ settled_state success attempt)
      × (r.1.live.verifications ≡ s.live.verifications)
      × (r.1.live.incident.resolution_source
          ≡ (if success then some source else s.live.incident.resolution_source))
      × (r.1.calls ≡ s.calls)
unfolding move_by_verdict change_incident_state apply_change transition_incident outside
move_by_verdict-lem settings true attempt source s h = ground arith
move_by_verdict-lem settings false attempt source s h = ground arith

continue-pure :
    {P : Platform} (v : VerificationRecord) (q : Result (Unit {0}) × Session P)
    → q.0 ≡ ok tt
    → continue q (λ _. pure v) ≡ (ok v, q.1)
continue-pure v (ok u, t) h = refl
continue-pure v (err e, t) h = cc

-- What a recorded verdict leaves behind.
abbrev pub IsSettledBy :
    {P : Platform}
    → Bool
    → ℕ
    → ResolutionSource
    → Session P
    → VerificationRecord
    → Result VerificationRecord × Session P
    → Type 0
IsSettledBy success attempt source s v r =
    (r.0 ≡ ok v)
    × (r.1.live.verifications ≡ v ∷ s.live.verifications)
    × (r.1.live.incident.state ≡ settled_state success attempt)
    × (r.1.live.incident.resolution_source
        ≡ (if success then some source else s.live.incident.resolution_source))
    × (r.1.calls ≡ s.calls)

after_record :
    {P : Platform} (settings : Settings) (success : Bool) (attempt : ℕ) (source : ResolutionSource)
    (s t : Session P) (v : VerificationRecord)
    → t.live.incident ≡ s.live.incident
    → t.live.verifications ≡ v ∷ s.live.verifications
    → t.calls ≡ s.calls
    → s.live.incident.state ≡ verifying
    → IsSettledBy success attempt source s v
        (continue (move_by_verdict settings success attempt source t) (λ _. pure v))
after_record settings success attempt source s t v same added quiet h =
    let (e, state, records, by, calls) =
      move_by_verdict-lem settings success attempt source t
        (ap (λ (i : Incident). i.state) same ∙ h) in
    rw (continue-pure v (move_by_verdict settings success attempt source t) e) (
      refl,
      records ∙ added,
      state,
      by ∙ ap (λ (i : Incident). if success then some source else i.resolution_source) same,
      calls ∙ quiet,
    )

-- Recording a verdict on an incident in VERIFYING returns, if the attempt is from 1 to 3 and has no
-- verdict yet. A success resolves the incident and records the given source of the resolution; a
-- failure escalates it at the third attempt, and before that leaves it in VERIFYING with its
-- source. The verdict is added to the records, and nothing outside is called.
pub persist_verification-settles :
    {P : Platform} (settings : Settings) (success : Bool) (attempt : ℕ)
    (action_execution_id : Option ℕ) (source : ResolutionSource) (s : Session P)
    → s.live.incident.state ≡ verifying
    → may_record attempt s.live.verifications ≡ true
    → IsSettledBy success attempt source s
        (new_verification s.live.next_id action_execution_id attempt success)
        (persist_verification settings success attempt action_execution_id source s)
unfolding persist_verification insert_verification audit_row append_stream_event
persist_verification-settles settings success attempt action_execution_id source s h k =
    elim (Bool-cases (not success && reverts_image (execution_of action_execution_id s.live))) [
      | inl withheld ↦
          rw (k, withheld) (after_record settings success attempt source s _ _ refl refl refl h)
      | inr other ↦
          rw (k, other) (after_record settings success attempt source s _ _ refl refl refl h)
    ]
