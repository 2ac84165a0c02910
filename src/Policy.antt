-- ===== src/Policy.antt =====
-- backend/app/policies/opa.py: the client of the policy engine. Whatever is not a valid decision
-- becomes a denial.
use cloud_ward.Errors.{python_error, validation_error}
use cloud_ward.Prelude.{leb, ◌&&◌, if◌then◌else◌, String, false, some}
use cloud_ward.Platform.{
  Platform, PolicyInput, PolicyResult, OpaReply, request_failed, no_result, invalid_result, decided,
}
use cloud_ward.Exec.{Exec, raise, pure, outside, log_call, evaluated, ◌>>=◌, ◌>>◌}

-- `PolicyResult.denied`
unfoldable pub denied : String → String → PolicyResult
denied reason error_code = record {
  allowed = false;
  requires_approval = false;
  reason = reason;
  error_code = some error_code;
}

unfoldable pub read_reply : OpaReply → PolicyResult
unfolding denied
read_reply request_failed = denied "Policy engine unavailable; action denied" "OPA_UNAVAILABLE"
read_reply no_result = denied "OPA returned no decision" "OPA_UNDEFINED_DECISION"
read_reply invalid_result = denied "OPA returned an invalid decision" "OPA_INVALID_RESPONSE"
read_reply (decided result) = result

-- The ranges that `PolicyInput` and `TargetInput` declare; outside of them pydantic raises.
unfoldable pub checked_input : {P : Platform} → PolicyInput P.floats → Exec P (PolicyInput P.floats)
checked_input {P} input =
    if leb input.risk_score 100
      && P.floats.at_most (P.floats.hundredths 0) input.confidence
      && P.floats.at_most input.confidence (P.floats.hundredths 100)
      && leb input.target.target_pods 1000
    then pure input
    else raise (python_error validation_error)

-- `OPAClient.evaluate`
unfoldable pub evaluate : {P : Platform} → PolicyInput P.floats → Exec P PolicyResult
evaluate {P} input = do
  reply ← outside (P.post_policy input)
  log_call (evaluated input (read_reply reply))
  pure (read_reply reply)
