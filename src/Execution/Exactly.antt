-- ===== src/Execution/Exactly.antt =====
-- How often `claim_action_execution` lets an action run.
use cloud_ward.Prelude.{
  ℕ, ◌≡◌, ◌⊎◌, ◌≤◌, inl, inr, refl, ap, sym, ◌∙◌, String, true, false, Option, none, some, List,
  ◌∷◌, ◌==◌, arith, find, Bool-cases, not, ◌||◌, ltb,
}
use cloud_ward.Errors.{
  Result, ok, err, python_error, integrity_error, cloud_ward_error, remediation_attempt_limit,
}
use cloud_ward.Store.Records.{ActionProposal, ActionExecution, Approval, approved, Parameters}
use cloud_ward.Platform.{Platform}
use cloud_ward.Exec.{Session, outside}
use cloud_ward.Execution.Claim.{
  ExecutionClaim, has_key, latest_approval, mark_claimed, mark_all, may_insert, new_execution,
  insert_execution, add_claim, claim_new, claim_key, claim_action_execution,
}

-- The row that a claim in the session `s` would add.
abbrev pub claimed_row : {P : Platform} → ActionProposal → ℕ → ℕ → Session P → ActionExecution
claimed_row proposal attempt key s =
    new_execution s.live.next_id s.live.incident.id proposal attempt key

-- The approvals after a claim of the execution with the given id.
abbrev pub approvals_after : Option Approval → ℕ → ℕ → List Approval → List Approval
approvals_after none time id approvals = approvals
approvals_after (some a) time id approvals = mark_all (mark_claimed a.id time id) approvals

abbrev pub IsUsable : Option Approval → Type 0
IsUsable none = Unit
IsUsable (some a) = (a.decision ≡ approved) × (a.execution_claimed_at ≡ none)

-- What a claim that adds a row leaves in the rows.
pub record IsAdded {P : Platform} (proposal : ActionProposal) (attempt key : ℕ)
    (approval : Option Approval) (s t : Session P) : Type 0 where
  pub insertable : may_insert (claimed_row proposal attempt key s) s.live.executions ≡ true
  pub added : t.live.executions ≡ claimed_row proposal attempt key s ∷ s.live.executions
  pub same_id : t.live.incident.id ≡ s.live.incident.id
  pub counted : t.live.incident.retry_count ≡ attempt
  pub marked :
      t.live.approvals ≡ approvals_after approval (P.now s.world).0 s.live.next_id s.live.approvals
  pub same_calls : t.calls ≡ s.calls

module _ {P : Platform} (proposal : ActionProposal) (attempt key : ℕ) (s : Session P) where
  pub add_claim-insertable :
      (approval : Option Approval)
      → may_insert (claimed_row proposal attempt key s) s.live.executions ≡ true
      → let r = add_claim proposal attempt key approval s in
        (r.0 ≡ ok (record { execution = claimed_row proposal attempt key s; claimed = true }))
        × IsAdded proposal attempt key approval s r.1
  unfolding add_claim insert_execution outside
  add_claim-insertable none h = rw h (
    refl,
    record {
      insertable = h;
      added = refl;
      same_id = refl;
      counted = refl;
      marked = refl;
      same_calls = refl;
    },
  )
  add_claim-insertable (some a) h = rw h (
    refl,
    record {
      insertable = h;
      added = refl;
      same_id = refl;
      counted = refl;
      marked = refl;
      same_calls = refl;
    },
  )

  add_claim-refused :
      (approval : Option Approval)
      → may_insert (claimed_row proposal attempt key s) s.live.executions ≡ false
      → (add_claim proposal attempt key approval s).0 ≡ err (python_error integrity_error)
  unfolding add_claim insert_execution outside
  add_claim-refused approval h = rw h refl

  add_claim-lem :
      (approval : Option Approval) (c : ExecutionClaim)
      → let r = add_claim proposal attempt key approval s in
        r.0 ≡ ok c
        → (c ≡ record { execution = claimed_row proposal attempt key s; claimed = true })
          × IsAdded proposal attempt key approval s r.1
  add_claim-lem approval c h =
      elim (Bool-cases (may_insert (claimed_row proposal attempt key s) s.live.executions)) [
        | inl yes_insert ↦ (
          cc (add_claim-insertable approval yes_insert).0,
          (add_claim-insertable approval yes_insert).1,
        )
        | inr no_insert ↦ cc (add_claim-refused approval no_insert)
      ]

  claim_new-lem :
      (approval : Option Approval) (c : ExecutionClaim)
      → let r = claim_new proposal attempt key approval s in
        r.0 ≡ ok c
        → IsUsable approval
          × (c ≡ record { execution = claimed_row proposal attempt key s; claimed = true })
          × IsAdded proposal attempt key approval s r.1
  unfolding claim_new
  claim_new-lem none c h = let (same, after) = add_claim-lem none c h in (tt, same, after)
  claim_new-lem (some a) c h = ground (arith, add_claim-lem (some a) c)

-- A claim is refused for its attempt and changes nothing, or it looks for its key.
pub claim-bounds :
    {P : Platform} (proposal : ActionProposal) (runbook_id : String) (target : Parameters)
    (attempt : ℕ) (s : Session P)
    → let key = P.action_key s.live.incident.id runbook_id proposal.action_type attempt target in
      let r = claim_action_execution proposal runbook_id target attempt s in
      (r ≡ (err (cloud_ward_error remediation_attempt_limit 409), s))
      ⊎ ((1 ≤ attempt)
          × (attempt ≤ 3)
          × (r ≡ claim_key proposal attempt key (find (has_key key) s.live.executions) s))
unfolding claim_action_execution
claim-bounds proposal runbook_id target attempt s =
    elim (Bool-cases (not (ltb attempt 1 || ltb 3 attempt))) [
      | inl within ↦ inr (ground arith, ground arith, rw within refl)
      | inr beyond ↦ inl (rw beyond refl)
    ]

-- What the search for the key decides.
abbrev pub IsSettled :
    {P : Platform}
    → ActionProposal
    → ℕ
    → ℕ
    → Option ActionExecution
    → ExecutionClaim
    → Session P
    → Session P
    → Type 0
IsSettled proposal attempt key (some x) c s t =
    (c ≡ record { execution = x; claimed = false }) × (t ≡ s)
IsSettled proposal attempt key none c s t =
    let approval = latest_approval proposal.id s.live.approvals in
    IsUsable approval
    × (c ≡ record { execution = claimed_row proposal attempt key s; claimed = true })
    × IsAdded proposal attempt key approval s t

claim_key-IsSettled :
    {P : Platform} (proposal : ActionProposal) (attempt key : ℕ) (found : Option ActionExecution)
    (s : Session P) (c : ExecutionClaim)
    → let r = claim_key proposal attempt key found s in
      r.0 ≡ ok c → IsSettled proposal attempt key found c s r.1
claim_key-IsSettled proposal attempt key (some x) s c h = (cc, refl)
claim_key-IsSettled proposal attempt key none s c h = claim_new-lem proposal attempt key s _ c h

-- What a claim that returns has done: it has found the execution that has its key and changed
-- nothing, or it has added one.
pub claim-IsSettled :
    {P : Platform} (proposal : ActionProposal) (runbook_id : String) (target : Parameters)
    (attempt : ℕ) (s : Session P) (c : ExecutionClaim)
    → let key = P.action_key s.live.incident.id runbook_id proposal.action_type attempt target in
      let r = claim_action_execution proposal runbook_id target attempt s in
      r.0 ≡ ok c
      → (1 ≤ attempt)
        × (attempt ≤ 3)
        × IsSettled proposal attempt key (find (has_key key) s.live.executions) c s r.1
claim-IsSettled {P} proposal runbook_id target attempt s c h =
    let key = P.action_key s.live.incident.id runbook_id proposal.action_type attempt target in
    elim (claim-bounds proposal runbook_id target attempt s) [
      | inl refused ↦ cc (ap (λ (r : Result ExecutionClaim × Session P). r.0) refused)
      | inr (low, high, same) ↦ (
        low,
        high,
        rw same (
            claim_key-IsSettled proposal attempt key _ s c
              (sym (ap (λ (r : Result ExecutionClaim × Session P). r.0) same) ∙ h)),
      )
    ]

pub ==_refl : (a : ℕ) → (a == a) ≡ true
==_refl a = ground arith

-- A claim that finds its key returns what it finds, and changes nothing.
claim_found :
    {P : Platform} (proposal : ActionProposal) (runbook_id : String) (target : Parameters)
    (attempt : ℕ) (s : Session P) (x : ActionExecution)
    → 1 ≤ attempt
    → attempt ≤ 3
    → let key = P.action_key s.live.incident.id runbook_id proposal.action_type attempt target in
      find (has_key key) s.live.executions ≡ some x
      → claim_action_execution proposal runbook_id target attempt s
        ≡ (ok (record { execution = x; claimed = false }), s)
unfolding claim_action_execution
claim_found proposal runbook_id target attempt s x low high f = rw (within, f) refl
  where
    within : not (ltb attempt 1 || ltb 3 attempt) ≡ true
    within = ground arith

settled-found :
    {P : Platform} (proposal : ActionProposal) (attempt key : ℕ) (found : Option ActionExecution)
    (c : ExecutionClaim) (s t : Session P)
    → find (has_key key) s.live.executions ≡ found
    → IsSettled proposal attempt key found c s t
    → (t.live.incident.id ≡ s.live.incident.id)
      × (find (has_key key) t.live.executions ≡ some c.execution)
unfolding find
settled-found proposal attempt key (some x) c s t f (e, same) = rw (same, e) (refl, f)
settled-found proposal attempt key none c s t f (_, e, a) =
    (a.same_id, rw (a.added, e, ==_refl key) refl)

-- A claim is idempotent: once a claim has returned, the same claim returns the same execution
-- again, not claimed, and changes nothing.
pub claim_action_execution-again :
    {P : Platform} (proposal : ActionProposal) (runbook_id : String) (target : Parameters)
    (attempt : ℕ) (s : Session P) (c : ExecutionClaim)
    → let r = claim_action_execution proposal runbook_id target attempt s in
      r.0 ≡ ok c
      → claim_action_execution proposal runbook_id target attempt r.1
        ≡ (ok (record { execution = c.execution; claimed = false }), r.1)
claim_action_execution-again {P} proposal runbook_id target attempt s c h =
    let (low, high, settled) = claim-IsSettled proposal runbook_id target attempt s c h in
    let (same_id, found) = settled-found proposal attempt _ _ c s _ refl settled in
    claim_found proposal runbook_id target attempt _ c.execution low high (rw same_id found)
