-- ===== src/Execution/Bounds.antt =====
-- How many executions an incident can have, and which rollbacks run by themselves.
use cloud_ward.Prelude.{
  ℕ, ◌+◌, ◌≡◌, ◌⊎◌, ◌≤◌, ◌↔◌, inl, inr, refl, String, Bool, true, false, Option, none, some, List,
  [], ◌∷◌, ◌==◌, arith, any, length, find, ◌&&◌, Bool-cases, if◌then◌else◌,
}
use cloud_ward.Actions.Registry.{ActionType, action_registry}
use cloud_ward.Store.Records.{ActionProposal, ActionExecution, Approval, Parameters}
use cloud_ward.Platform.{Platform}
use cloud_ward.Exec.{Session}
use cloud_ward.Execution.Claim.{
  has_key, latest_approval, may_insert, insert_execution, add_claim, claim_new, claim_key,
  claim_action_execution,
}
use cloud_ward.Execution.Exactly.{claimed_row, claim-bounds, add_claim-insertable}
use cloud_ward.Execution.Rollback.{automatic, decide_rollback}

-- The executions of the incident with the given id, each inserted as the table allows.
abbrev pub IsRecorded : ℕ → List ActionExecution → Type 0
IsRecorded id [] = Unit
IsRecorded id (x ∷ xs) = (x.incident_id ≡ id) × (may_insert x xs ≡ true) × IsRecorded id xs

-- 1 if the incident has an execution for the attempt.
abbrev seen : ℕ → ℕ → List ActionExecution → ℕ
seen id attempt xs =
    if any (λ (y : ActionExecution). y.incident_id == id && y.attempt == attempt) xs then 1 else 0

seen-le : (id attempt : ℕ) (xs : List ActionExecution) → seen id attempt xs ≤ 1
seen-le id attempt xs = ground arith

-- An insertion takes a free attempt from 1 to 3.
seen-cons :
    (id : ℕ) (x : ActionExecution) (xs : List ActionExecution)
    → x.incident_id ≡ id
    → may_insert x xs ≡ true
    → seen id 1 xs + seen id 2 xs + seen id 3 xs + 1
      ≤ seen id 1 (x ∷ xs) + seen id 2 (x ∷ xs) + seen id 3 (x ∷ xs)
unfolding any may_insert
seen-cons id x xs e h = ground arith

length-seen :
    (id : ℕ) (xs : List ActionExecution)
    → IsRecorded id xs
    → length xs ≤ seen id 1 xs + seen id 2 xs + seen id 3 xs
length-seen id [] h = omega arith
length-seen id (x ∷ xs) (e, insertable, rest) =
    omega (arith, length-seen id xs rest, seen-cons id x xs e insertable)

length-bound : (id : ℕ) (xs : List ActionExecution) → IsRecorded id xs → length xs ≤ 3
length-bound id xs h =
    omega (arith, length-seen id xs h, seen-le id 1 xs, seen-le id 2 xs, seen-le id 3 xs)

-- The rows that a claim may leave in the table of executions.
abbrev IsKept : {P : Platform} → ActionProposal → ℕ → ℕ → Session P → Session P → Type 0
IsKept proposal attempt key s t =
    (t.live.incident.id ≡ s.live.incident.id)
    × ((t.live.executions ≡ s.live.executions)
        ⊎ ((t.live.executions ≡ claimed_row proposal attempt key s ∷ s.live.executions)
            × (may_insert (claimed_row proposal attempt key s) s.live.executions ≡ true)))

module _ {P : Platform} (proposal : ActionProposal) (attempt key : ℕ) (s : Session P) where
  add_claim-IsKept :
      (approval : Option Approval)
      → IsKept proposal attempt key s (add_claim proposal attempt key approval s).1
  unfolding add_claim insert_execution
  add_claim-IsKept approval =
      elim (Bool-cases (may_insert (claimed_row proposal attempt key s) s.live.executions)) [
        | inl insertable ↦
            let (_, added) = add_claim-insertable proposal attempt key s approval insertable in
            (added.same_id, inr (added.added, insertable))
        | inr refused ↦ rw refused (refl, inl refl)
      ]

  claim_new-IsKept :
      (approval : Option Approval)
      → IsKept proposal attempt key s (claim_new proposal attempt key approval s).1
  unfolding claim_new
  claim_new-IsKept none = add_claim-IsKept none
  claim_new-IsKept (some a) = ground (arith, add_claim-IsKept (some a))

  claim_key-IsKept :
      (found : Option ActionExecution)
      → IsKept proposal attempt key s (claim_key proposal attempt key found s).1
  claim_key-IsKept none = claim_new-IsKept (latest_approval proposal.id s.live.approvals)
  claim_key-IsKept (some x) = (refl, inl refl)

IsKept-IsRecorded :
    {P : Platform} (proposal : ActionProposal) (attempt key : ℕ) (s t : Session P)
    → IsKept proposal attempt key s t
    → IsRecorded s.live.incident.id s.live.executions
    → IsRecorded t.live.incident.id t.live.executions
IsKept-IsRecorded proposal attempt key s t (same, inl kept) h = rw (same, kept) h
IsKept-IsRecorded proposal attempt key s t (same, inr (added, insertable)) h =
    rw (same, added) (refl, insertable, h)

claim_key-IsRecorded :
    {P : Platform} (proposal : ActionProposal) (attempt key : ℕ) (found : Option ActionExecution)
    (s : Session P)
    → IsRecorded s.live.incident.id s.live.executions
    → let t = (claim_key proposal attempt key found s).1 in
      IsRecorded t.live.incident.id t.live.executions
claim_key-IsRecorded proposal attempt key found s h =
    IsKept-IsRecorded proposal attempt key s (claim_key proposal attempt key found s).1
      (claim_key-IsKept proposal attempt key s found) h

claim-IsRecorded :
    {P : Platform} (proposal : ActionProposal) (runbook_id : String) (target : Parameters)
    (attempt : ℕ) (s : Session P)
    → IsRecorded s.live.incident.id s.live.executions
    → let t = (claim_action_execution proposal runbook_id target attempt s).1 in
      IsRecorded t.live.incident.id t.live.executions
claim-IsRecorded proposal runbook_id target attempt s h =
    elim (claim-bounds proposal runbook_id target attempt s) [
      | inl refused ↦ rw refused h
      | inr (_, _, e) ↦
          rw e (claim_key-IsRecorded proposal attempt _ (find (has_key _) s.live.executions) s h)
    ]

-- Every claim, whether it returns or raises, keeps the executions of the incident within the
-- constraints of the table, and the incident then has at most three executions.
pub claim_action_execution-at_most_three :
    {P : Platform} (proposal : ActionProposal) (runbook_id : String) (target : Parameters)
    (attempt : ℕ) (s : Session P)
    → IsRecorded s.live.incident.id s.live.executions
    → let t = (claim_action_execution proposal runbook_id target attempt s).1 in
      IsRecorded t.live.incident.id t.live.executions × (length t.live.executions ≤ 3)
claim_action_execution-at_most_three proposal runbook_id target attempt s h =
    let recorded = claim-IsRecorded proposal runbook_id target attempt s h in
    (recorded, length-bound _ _ recorded)

-- A rollback runs by itself exactly when rollbacks are enabled, the action can be reversed and
-- rolled back, the policy allows it, the action is not persistent and its risk score is at most
-- the configured bound.
pub decide_rollback-automatic :
    (automatic_max_risk : ℕ) (action : ActionType) (risk_score : ℕ)
    (rollback_enabled policy_allows_rollback : Bool)
    → (decide_rollback automatic_max_risk action risk_score rollback_enabled policy_allows_rollback
        ≡ automatic)
      ↔ ((rollback_enabled ≡ true)
          × ((action_registry action).reversible ≡ true)
          × ((action_registry action).rollback_capable ≡ true)
          × (policy_allows_rollback ≡ true)
          × ((action_registry action).persistent ≡ false)
          × (risk_score ≤ automatic_max_risk))
unfolding decide_rollback
decide_rollback-automatic m a r e p = ground arith
