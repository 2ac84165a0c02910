-- ===== src/Verification/Outcome.antt =====
-- backend/app/verification/multisignal.py: `persist_verification`, which records a verdict and moves
-- the incident accordingly.
use cloud_ward.Prelude.{
  ℕ, ◌+◌, Bool, true, false, not, ◌&&◌, Option, none, some, ◌∷◌, ◌==◌, leb, find, any, List,
  if◌then◌else◌,
}
use cloud_ward.Errors.{python_error, integrity_error}
use cloud_ward.Incidents.Machine.{resolved, escalated}
use cloud_ward.Incidents.Service.{
  Details, no_details, audit_row, set_incident, change_incident_state,
}
use cloud_ward.Actions.Registry.{ActionType, revert_image}
use cloud_ward.Store.Records.{ActionExecution, ResolutionSource, VerificationRecord, system}
use cloud_ward.Store.Case.{Case, append_stream_event}
use cloud_ward.Settings.{Settings}
use cloud_ward.Platform.{Platform}
use cloud_ward.Exec.{Exec, pure, raise, rows, on_rows, when, ◌>>=◌, ◌>>◌}

abbrev pub is_revert_image : ActionType → Bool
is_revert_image revert_image = true
is_revert_image _ = false

abbrev pub reverts_image : Option ActionExecution → Bool
reverts_image none = false
reverts_image (some x) = is_revert_image x.action_type

-- `session.get(ActionExecution, action_execution_id)`, if there is an id.
abbrev pub execution_of : Option ℕ → Case → Option ActionExecution
execution_of none c = none
execution_of (some id) c = find (λ (x : ActionExecution). x.id == id) c.executions

abbrev pub new_verification : ℕ → Option ℕ → ℕ → Bool → VerificationRecord
new_verification id action_execution_id attempt success = record {
  id = id;
  action_execution_id = action_execution_id;
  attempt = attempt;
  success = success;
}

-- The constraints of the table, on the records of the incident in hand: attempts from 1 to 3, and
-- one record for each.
unfoldable pub may_record : ℕ → List VerificationRecord → Bool
may_record attempt verifications =
    leb 1 attempt
    && leb attempt 3
    && not (any (λ (v : VerificationRecord). v.attempt == attempt) verifications)

abbrev limit_details : Details
limit_details = record no_details { reason = some "attempt_limit_reached" }

module _ {P : Platform} where
  -- `session.add(record)` and `session.flush()`.
  unfoldable pub insert_verification : VerificationRecord → Exec P (Unit {0})
  insert_verification v = do
    c ← rows
    if may_record v.attempt c.verifications
        then on_rows
            (λ c. record c { verifications = v ∷ c.verifications; next_id = c.next_id + 1 })
        else raise (python_error integrity_error)

  -- The change of state that a verdict asks for.
  unfoldable pub move_by_verdict : Settings → Bool → ℕ → ResolutionSource → Exec P (Unit {0})
  move_by_verdict settings true attempt source = do
    on_rows (set_incident (λ i. record i { resolution_source = some source }))
    change_incident_state settings resolved "cloudward-verifier" system no_details false
  move_by_verdict settings false attempt source =
      when (leb 3 attempt)
        (change_incident_state settings escalated "cloudward-verifier" system limit_details false)

  -- `persist_verification`; of the result, its success is read.
  unfoldable pub persist_verification :
      Settings → Bool → ℕ → Option ℕ → ResolutionSource → Exec P VerificationRecord
  unfolding append_stream_event audit_row
  persist_verification settings success attempt action_execution_id source = do
    c ← rows
    let verification = new_verification c.next_id action_execution_id attempt success
    insert_verification verification
    on_rows (append_stream_event "verification.progress")
    when (not success && reverts_image (execution_of action_execution_id c)) (
        on_rows (
          audit_row "PERSISTENT_ROLLBACK_WITHHELD" "cloudward-verifier" system (some revert_image)
            none none "ESCALATION_REQUIRED"))
    move_by_verdict settings success attempt source
    pure verification
