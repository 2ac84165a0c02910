-- ===== src/Execution/Once.antt =====
-- An approval lets `claim_action_execution` add one execution, and an incident has at most three.
use cloud_ward.Prelude.{
  ℕ, ◌≡◌, ◌⊎◌, inl, inr, refl, subst, String, true, false, Option, none, some, List, [], ◌∷◌, ◌==◌,
  arith, Bool-cases,
}
use cloud_ward.Errors.{
  Result, ok, err, cloud_ward_error, approved_action_already_claimed, remediation_attempt_limit,
}
use cloud_ward.Store.Records.{ActionProposal, ActionExecution, Approval, approved, Parameters}
use cloud_ward.Platform.{Platform}
use cloud_ward.Exec.{Session}
use cloud_ward.Execution.Claim.{
  ExecutionClaim, latest_approval, higher_version, mark_claimed, mark_all, claim_new, claim_key,
  claim_action_execution,
}
use cloud_ward.Execution.Exactly.{
  IsUsable, IsAdded, IsSettled, claim-bounds, claim-IsSettled, ==_refl,
}

mark_claimed-keeps :
    (id time execution_id : ℕ) (a : Approval)
    → ((mark_claimed id time execution_id a).proposal_id ≡ a.proposal_id)
      × ((mark_claimed id time execution_id a).proposal_version ≡ a.proposal_version)
mark_claimed-keeps id time execution_id a = ground arith

abbrev mark_option : ℕ → ℕ → ℕ → Option Approval → Option Approval
mark_option id time execution_id none = none
mark_option id time execution_id (some a) = some (mark_claimed id time execution_id a)

higher_version-mark :
    (id time execution_id : ℕ) (a : Approval) (o : Option Approval)
    → higher_version (mark_claimed id time execution_id a) (mark_option id time execution_id o)
      ≡ mark_option id time execution_id (higher_version a o)
higher_version-mark id time execution_id a none = refl
higher_version-mark id time execution_id a (some b) = ground arith

latest_approval-mark_all :
    (id time execution_id proposal_id : ℕ) (approvals : List Approval)
    → latest_approval proposal_id (mark_all (mark_claimed id time execution_id) approvals)
      ≡ mark_option id time execution_id (latest_approval proposal_id approvals)
unfolding latest_approval
latest_approval-mark_all id time execution_id proposal_id [] = refl
latest_approval-mark_all id time execution_id proposal_id (a ∷ rest) =
    elim (Bool-cases (a.proposal_id == proposal_id)) [
      | inl mine ↦
          rw
            (
              (mark_claimed-keeps id time execution_id a).0,
              mine,
              latest_approval-mark_all id time execution_id proposal_id rest,
            )
            (higher_version-mark id time execution_id a (latest_approval proposal_id rest))
      | inr other ↦
          rw
            (
              (mark_claimed-keeps id time execution_id a).0,
              other,
              latest_approval-mark_all id time execution_id proposal_id rest,
            )
            refl
    ]

abbrev claimed_approval : Approval → ℕ → ℕ → Approval
claimed_approval a time execution_id = record a {
  execution_claimed_at = some time;
  execution_reference = some execution_id;
}

-- A claim that has added a row leaves the latest approval of its proposal claimed.
claimed-latest :
    {P : Platform} (proposal : ActionProposal) (attempt key : ℕ) (a : Approval) (s t : Session P)
    → latest_approval proposal.id s.live.approvals ≡ some a
    → IsAdded proposal attempt key (some a) s t
    → latest_approval proposal.id t.live.approvals
      ≡ some (claimed_approval a (P.now s.world).0 s.live.next_id)
claimed-latest {P} proposal attempt key a s t l added =
    rw
      (
        added.marked,
        latest_approval-mark_all a.id (P.now s.world).0 s.live.next_id proposal.id s.live.approvals,
        l,
        ==_refl a.id,
      )
      refl

claim_new-spent :
    {P : Platform} (proposal : ActionProposal) (attempt key time : ℕ) (a : Approval) (t : Session P)
    → latest_approval proposal.id t.live.approvals ≡ some a
    → a.decision ≡ approved
    → a.execution_claimed_at ≡ some time
    → claim_new proposal attempt key (latest_approval proposal.id t.live.approvals) t
      ≡ (err (cloud_ward_error approved_action_already_claimed 409), t)
unfolding claim_new
claim_new-spent proposal attempt key time a t l d e = rw (l, d, e) refl

-- The three ways in which a claim ends when its proposal's approval is already claimed.
abbrev pub IsSpent : {P : Platform} → Result ExecutionClaim × Session P → Session P → Type 0
IsSpent r t =
    (r ≡ (err (cloud_ward_error remediation_attempt_limit 409), t))
    ⊎ (r ≡ (err (cloud_ward_error approved_action_already_claimed 409), t))
    ⊎ ((x : ActionExecution) × (r ≡ (ok (record { execution = x; claimed = false }), t)))

claim_key-IsSpent :
    {P : Platform} (proposal : ActionProposal) (attempt key time : ℕ) (a : Approval)
    (found : Option ActionExecution) (t : Session P)
    → latest_approval proposal.id t.live.approvals ≡ some a
    → a.decision ≡ approved
    → a.execution_claimed_at ≡ some time
    → IsSpent (claim_key proposal attempt key found t) t
claim_key-IsSpent proposal attempt key time a (some x) t l d e = inr (inr (x, refl))
claim_key-IsSpent proposal attempt key time a none t l d e =
    inr (inl (claim_new-spent proposal attempt key time a t l d e))

settled-new :
    {P : Platform} (proposal : ActionProposal) (attempt key : ℕ) (found : Option ActionExecution)
    (c : ExecutionClaim) (a : Approval) (s t : Session P)
    → latest_approval proposal.id s.live.approvals ≡ some a
    → IsSettled proposal attempt key found c s t
    → c.claimed ≡ true
    → IsUsable (some a) × IsAdded proposal attempt key (some a) s t
settled-new proposal attempt key (some x) c a s t l (e, _) k = cc
settled-new proposal attempt key none c a s t l (usable, _, added) k =
    subst (λ o. IsUsable o × IsAdded proposal attempt key o s t) l (usable, added)

-- An approval of a proposal is used for one execution. If a claim has added an execution and the
-- proposal has an approval (the latest is meant), that approval was granted and unclaimed; and
-- any later claim for the proposal, with whatever runbook, target and attempt, raises
-- REMEDIATION_ATTEMPT_LIMIT or APPROVED_ACTION_ALREADY_CLAIMED with status 409 or finds an existing
-- execution, and changes nothing.
pub claim_action_execution-once :
    {P : Platform} (proposal : ActionProposal) (runbook_id : String) (target : Parameters)
    (attempt : ℕ) (s : Session P) (c : ExecutionClaim) (a : Approval) (later : ActionProposal)
    (later_runbook : String) (later_target : Parameters) (later_attempt : ℕ)
    → latest_approval proposal.id s.live.approvals ≡ some a
    → later.id ≡ proposal.id
    → let r = claim_action_execution proposal runbook_id target attempt s in
      r.0 ≡ ok c
      → c.claimed ≡ true
      → (a.decision ≡ approved)
        × (a.execution_claimed_at ≡ none)
        × IsSpent (claim_action_execution later later_runbook later_target later_attempt r.1) r.1
claim_action_execution-once {P} proposal runbook_id target attempt s c a later later_runbook
      later_target later_attempt l same h k =
    let (_, _, settled) = claim-IsSettled proposal runbook_id target attempt s c h in
    let (usable, added) = settled-new proposal attempt _ _ c a s _ l settled k in
    let now_claimed = claimed-latest proposal attempt _ a s _ l added in
    (
      usable.0,
      usable.1,
      elim (claim-bounds later later_runbook later_target later_attempt _) [
        | inl refused ↦ inl refused
        | inr (_, _, e) ↦ rw e (
            claim_key-IsSpent later later_attempt _ (P.now s.world).0
              (claimed_approval a (P.now s.world).0 s.live.next_id) _ _ (rw same now_claimed)
              usable.0 refl)
      ],
    )
