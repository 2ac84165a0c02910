-- ===== src/Approvals/Once.antt =====
-- An approval is decided at most once, and only about the proposal that it was requested for.
use cloud_ward.Prelude.{
  ℕ, ◌≡◌, ◌∙◌, String, true, false, Option, none, some, arith, find, ◌==◌, ◌∷◌, List, [],
  update_where,
}
use cloud_ward.Errors.{Result, ok, err, cloud_ward_error, approval_already_decided}
use cloud_ward.Incidents.Service.{change_incident_state, apply_change}
use cloud_ward.Rbac.{Principal}
use cloud_ward.Store.Records.{Approval, ActionProposal, ApprovalDecision, refused, InvalidReason}
use cloud_ward.Settings.{Settings}
use cloud_ward.Platform.{Platform}
use cloud_ward.Exec.{Session, outside, continue}
use cloud_ward.Approvals.Stale.{stale_reason}
use cloud_ward.Approvals.Sound.{stale_reason-lem}
use cloud_ward.Approvals.Decide.{
  is_undecided, is_verdict, decide_bound, invalidate, bound_proposal, decide, approve, settle,
  invalidate_stale, grant_approval, reject_approval,
}

-- A row that is looked up by its id after it was replaced by a row with that id.
pub find-update_where_approval :
    (id : ℕ) (new old : Approval) (rows : List Approval)
    → new.id ≡ id
    → find (λ (x : Approval). x.id == id) rows ≡ some old
    → find
        (λ (x : Approval). x.id == id)
        (update_where (λ (x : Approval). x.id == id) (λ _. new) rows)
      ≡ some new
unfolding find update_where
find-update_where_approval id new old [] e h = cc
find-update_where_approval id new old (x ∷ rows) e h =
    ground (arith, find-update_where_approval id new old rows e)

-- The way the stored approvals change in a decision: the row is replaced by a decided one.
abbrev IsReplaced : Approval → Approval → List Approval → List Approval → Type 0
IsReplaced approval a before after =
    (a.id ≡ approval.id)
    × (is_undecided a.decision ≡ false)
    × (after ≡ update_where (λ (x : Approval). x.id == approval.id) (λ _. a) before)

module _ {P : Platform} (settings : Settings) (approval a : Approval) (proposal : ActionProposal)
    (principal : Principal) where
  invalidate_stale-IsReplaced :
      (reason : InvalidReason) (s : Session P)
      → let r = invalidate_stale settings approval proposal principal reason s in
        r.0 ≡ ok a → IsReplaced approval a s.live.approvals r.1.live.approvals
  unfolding invalidate_stale change_incident_state apply_change outside
  invalidate_stale-IsReplaced reason s h = ground arith

  grant_approval-IsReplaced :
      (comment : Option String) (s : Session P)
      → let r = grant_approval settings approval proposal principal comment s in
        r.0 ≡ ok a → IsReplaced approval a s.live.approvals r.1.live.approvals
  unfolding grant_approval change_incident_state apply_change outside
  grant_approval-IsReplaced comment s h = ground arith

  reject_approval-IsReplaced :
      (comment : Option String) (s : Session P)
      → let r = reject_approval settings approval proposal principal comment s in
        r.0 ≡ ok a → IsReplaced approval a s.live.approvals r.1.live.approvals
  unfolding reject_approval change_incident_state apply_change outside
  reject_approval-IsReplaced comment s h = ground arith

after_stale :
    {P : Platform} (settings : Settings) (approval a : Approval) (proposal : ActionProposal)
    (principal : Principal) (comment : Option String) (s : Session P)
    (q : Result (Option InvalidReason) × Session P)
    → q.1.live ≡ s.live
    → let r = continue q (settle settings approval proposal principal comment) in
      r.0 ≡ ok a → IsReplaced approval a s.live.approvals r.1.live.approvals
after_stale settings approval a proposal principal comment s (err e, t) same h = cc
after_stale settings approval a proposal principal comment s (ok (some reason), t) same h =
    ground (arith, invalidate_stale-IsReplaced settings approval a proposal principal reason t)
after_stale settings approval a proposal principal comment s (ok none, t) same h =
    ground (arith, grant_approval-IsReplaced settings approval a proposal principal comment t)

approve-IsReplaced :
    {P : Platform} (settings : Settings) (approval a : Approval) (proposal : ActionProposal)
    (principal : Principal) (comment : Option String) (s : Session P)
    → let r = approve settings approval proposal principal comment s in
      r.0 ≡ ok a → IsReplaced approval a s.live.approvals r.1.live.approvals
unfolding approve
approve-IsReplaced settings approval a proposal principal comment s h = ground (
  arith,
  after_stale settings approval a proposal principal comment s
      (stale_reason approval proposal principal s)
      (stale_reason-lem approval proposal principal s).0,
)

decide_bound-IsReplaced :
    {P : Platform} (settings : Settings) (decision : ApprovalDecision) (principal : Principal)
    (comment : Option String) (approval a : Approval) (bound : Option ActionProposal)
    (s : Session P)
    → let r = decide_bound settings decision principal comment approval bound s in
      r.0 ≡ ok a → IsReplaced approval a s.live.approvals r.1.live.approvals
unfolding invalidate outside
decide_bound-IsReplaced settings decision principal comment approval a none s h = cc
decide_bound-IsReplaced settings refused principal comment approval a (some proposal) s h =
    reject_approval-IsReplaced settings approval a proposal principal comment s h
decide_bound-IsReplaced settings _ principal comment approval a (some proposal) s h =
    approve-IsReplaced settings approval a proposal principal comment s h

decide-IsReplaced :
    {P : Platform} (settings : Settings) (approval_id : ℕ) (decision : ApprovalDecision)
    (principal : Principal) (comment : Option String) (s : Session P) (approval a : Approval)
    → find (λ (x : Approval). x.id == approval_id) s.live.approvals ≡ some approval
    → let r = decide settings approval_id decision principal comment s in
      r.0 ≡ ok a → IsReplaced approval a s.live.approvals r.1.live.approvals
unfolding decide
decide-IsReplaced settings approval_id decision principal comment s approval a f h = ground (
  arith,
  decide_bound-IsReplaced settings decision principal comment approval a
      (bound_proposal approval s.live) s,
)

pub find-id :
    (id : ℕ) (rows : List Approval) (a : Approval)
    → find (λ (x : Approval). x.id == id) rows ≡ some a
    → a.id ≡ id
unfolding find
find-id id [] a h = cc
find-id id (x ∷ rows) a h = ground (arith, find-id id rows a)

decide-decided :
    {P : Platform} (settings : Settings) (approval_id : ℕ) (decision : ApprovalDecision)
    (principal : Principal) (comment : Option String) (s : Session P) (approval : Approval)
    → is_verdict decision ≡ true
    → find (λ (x : Approval). x.id == approval_id) s.live.approvals ≡ some approval
    → is_undecided approval.decision ≡ false
    → decide settings approval_id decision principal comment s
      ≡ (err (cloud_ward_error approval_already_decided 409), s)
unfolding decide
decide-decided settings approval_id decision principal comment s approval v f u = ground arith

-- Whatever a decision on a stored approval returned (approved, rejected, expired or invalidated), a
-- second decision on it, by anyone and of either kind, raises APPROVAL_ALREADY_DECIDED with status
-- 409 and changes nothing.
pub decide-once :
    {P : Platform} (settings : Settings) (approval_id : ℕ) (decision again : ApprovalDecision)
    (principal other : Principal) (comment remark : Option String) (s : Session P)
    (approval a : Approval)
    → find (λ (x : Approval). x.id == approval_id) s.live.approvals ≡ some approval
    → is_verdict again ≡ true
    → let r = decide settings approval_id decision principal comment s in
      r.0 ≡ ok a
      → decide settings approval_id again other remark r.1
        ≡ (err (cloud_ward_error approval_already_decided 409), r.1)
decide-once settings approval_id decision again principal other comment remark s approval a f v h =
    let (same_id, decided, after) =
      decide-IsReplaced settings approval_id decision principal comment s approval a f h in
    let id = find-id approval_id s.live.approvals approval f in
    decide-decided settings approval_id again other remark _ a v
      (rw (after, id)
        (find-update_where_approval approval_id a approval s.live.approvals (same_id ∙ id) f))
      decided
