-- ===== src/Tests/Execution.antt =====
-- Claims, rollbacks and guarded requests on concrete rows.
use cloud_ward.Prelude.{
  ◌≡◌, ◌⊎◌, ◌≤◌, ◌↔◌, refl, String, true, false, none, some, [], ◌∷◌, find, any, length, has_text,
}
use cloud_ward.Errors.{ok}
use cloud_ward.Actions.Registry.{delete_unhealthy_pod, action_registry}
use cloud_ward.Store.Records.{approved}
use cloud_ward.Exec.{outside, deleted_pod, scaled}
use cloud_ward.Kubernetes.Executor.{delete_pod, scale_staging_deployment}
use cloud_ward.Kubernetes.Guards.{
  MayBeDeleted, MayBeScaled, delete_pod-guarded, scale_staging_deployment-guarded,
}
use cloud_ward.Execution.Claim.{
  ExecutionClaim, claim_action_execution, claim_new, add_claim, insert_execution, may_insert,
  latest_approval,
}
use cloud_ward.Execution.Exactly.{claimed_row, claim_action_execution-again}
use cloud_ward.Execution.Once.{IsSpent, claim_action_execution-once}
use cloud_ward.Execution.Rollback.{automatic, decide_rollback}
use cloud_ward.Execution.Bounds.{
  IsRecorded, claim_action_execution-at_most_three, decide_rollback-automatic,
}
use cloud_ward.Tests.World.{demo, demo_parameters, proposal_of, approval_of, granted}

abbrev first_claim : ExecutionClaim
first_claim = record { execution = claimed_row (proposal_of 40) 1 71 granted; claimed = true }

claiming_run :
    (claim_action_execution {P = demo} (proposal_of 40) "unhealthy-pod" demo_parameters 1 granted).0
    ≡ ok first_claim
unfolding claim_action_execution find claim_new add_claim insert_execution may_insert
    latest_approval any outside
claiming_run = refl

latest_granted :
    latest_approval (proposal_of 40).id granted.live.approvals ≡ some (approval_of approved 40)
unfolding latest_approval
latest_granted = refl

claim_action_execution-again_example :
    let r =
      claim_action_execution {P = demo}
        (proposal_of 40)
        "unhealthy-pod"
        demo_parameters
        1
        granted in
    claim_action_execution (proposal_of 40) "unhealthy-pod" demo_parameters 1 r.1
    ≡ (ok (record { execution = first_claim.execution; claimed = false }), r.1)
claim_action_execution-again_example =
    claim_action_execution-again (proposal_of 40) "unhealthy-pod" demo_parameters 1 granted
      first_claim claiming_run

claim_action_execution-once_example :
    let r =
      claim_action_execution {P = demo}
        (proposal_of 40)
        "unhealthy-pod"
        demo_parameters
        1
        granted in
    ((approval_of approved 40).decision ≡ approved)
    × ((approval_of approved 40).execution_claimed_at ≡ none)
    × IsSpent (claim_action_execution (proposal_of 40) "unhealthy-pod" demo_parameters 2 r.1) r.1
claim_action_execution-once_example =
    claim_action_execution-once (proposal_of 40) "unhealthy-pod" demo_parameters 1 granted
      first_claim (approval_of approved 40) (proposal_of 40) "unhealthy-pod" demo_parameters 2
      latest_granted refl claiming_run refl

claim_action_execution-at_most_three_example :
    let t =
      (claim_action_execution {P = demo}
        (proposal_of 40)
        "unhealthy-pod"
        demo_parameters
        1
        granted).1 in
    IsRecorded t.live.incident.id t.live.executions × (length t.live.executions ≤ 3)
claim_action_execution-at_most_three_example =
    claim_action_execution-at_most_three (proposal_of 40) "unhealthy-pod" demo_parameters 1 granted
      tt

decide_rollback-automatic_example :
    (decide_rollback 30 delete_unhealthy_pod 20 true true ≡ automatic) ↔ (
      (true ≡ true)
      × ((action_registry delete_unhealthy_pod).reversible ≡ true)
      × ((action_registry delete_unhealthy_pod).rollback_capable ≡ true)
      × (true ≡ true)
      × ((action_registry delete_unhealthy_pod).persistent ≡ false)
      × (20 ≤ 30))
decide_rollback-automatic_example = decide_rollback-automatic 30 delete_unhealthy_pod 20 true true

delete_pod-guarded_example :
    let t =
      (delete_pod {P = demo}
        ("cloudward-staging" ∷ [])
        "cloudward-staging"
        "checkout-1"
        granted).1 in
    (t.live ≡ granted.live)
    × (t.committed ≡ granted.committed)
    × ((t.calls ≡ granted.calls)
        ⊎ ((t.calls ≡ deleted_pod "cloudward-staging" "checkout-1" ∷ granted.calls)
            × (has_text "cloudward-staging" ("cloudward-staging" ∷ []) ≡ true)
            × MayBeDeleted (demo.read_pod "cloudward-staging" "checkout-1" granted.world).0))
delete_pod-guarded_example =
    delete_pod-guarded ("cloudward-staging" ∷ []) "cloudward-staging" "checkout-1" granted

abbrev staging_name : String
staging_name = "cloudward-staging"

scale_staging_deployment-guarded_example :
    let t =
      (scale_staging_deployment {P = demo}
        ("cloudward-staging" ∷ [])
        "cloudward-staging"
        "checkout"
        4
        5
        (some 3)
        granted).1 in
    (t.live ≡ granted.live)
    × (t.committed ≡ granted.committed)
    × ((t.calls ≡ granted.calls)
        ⊎ ((t.calls ≡ scaled "cloudward-staging" "checkout" 4 ∷ granted.calls)
            × (has_text "cloudward-staging" ("cloudward-staging" ∷ []) ≡ true)
            × (staging_name ≡ "cloudward-staging")
            × (1 ≤ 4)
            × (4 ≤ 5)
            × MayBeScaled
                (some 3)
                (demo.read_deployment "cloudward-staging" "checkout" granted.world).0))
scale_staging_deployment-guarded_example =
    scale_staging_deployment-guarded ("cloudward-staging" ∷ []) "cloudward-staging" "checkout" 4 5
      (some 3) granted
