-- ===== src/Runbooks/Choice.antt =====
-- Which runbook `match` chooses.
use cloud_ward.Prelude.{
  ◌≡◌, ◌⊎◌, inl, inr, refl, ap, ◌∙◌, String, Bool, true, false, Option, none, some, List, [], ◌∷◌,
  arith, keep, Bool-cases,
}
use cloud_ward.Errors.{ok, err, cloud_ward_error, runbook_not_found}
use cloud_ward.Platform.{Platform}
use cloud_ward.Exec.{Session}
use cloud_ward.Kubernetes.Executor.{or_error}
use cloud_ward.Runbooks.Texts.{codes, codes_le_total, codes_le_trans, codes_le_refl}
use cloud_ward.Runbooks.Schema.{RunbookDocument}
use cloud_ward.Runbooks.Loader.{
  is_candidate, key_le, insert_by_key, sort_by_key, first, best, match_runbook,
}

key_le_total : (a b : RunbookDocument) → key_le a b ≡ false → key_le b a ≡ true
unfolding key_le
key_le_total a b h = ground (arith, codes_le_total (codes a.id) (codes b.id))

key_le_trans : (a b c : RunbookDocument) → key_le a b ≡ true → key_le b c ≡ true → key_le a c ≡ true
unfolding key_le
key_le_trans a b c h k = ground (arith, codes_le_trans (codes a.id) (codes b.id) (codes c.id))

-- Every member of the list satisfies the predicate.
abbrev pub Each : (RunbookDocument → Type 0) → List RunbookDocument → Type 0
Each Q [] = Unit
Each Q (r ∷ rest) = Q r × Each Q rest

-- The runbook is one of the list.
abbrev pub IsIn : RunbookDocument → List RunbookDocument → Type 0
IsIn r [] = ⊥
IsIn r (s ∷ rest) = (r ≡ s) ⊎ IsIn r rest

-- What stands first in the sorted list: nothing only if the list is empty, or else a member of it
-- whose key no member exceeds.
abbrev IsTop : Option RunbookDocument → List RunbookDocument → Type 0
IsTop none rs = rs ≡ []
IsTop (some r) rs = IsIn r rs × Each (λ q. key_le q r ≡ true) rs

Each-weaken :
    (r s : RunbookDocument) (rs : List RunbookDocument)
    → key_le r s ≡ true
    → Each (λ q. key_le q r ≡ true) rs
    → Each (λ q. key_le q s ≡ true) rs
Each-weaken r s [] h e = tt
Each-weaken r s (q ∷ rs) h (here, rest) = (key_le_trans q r s here h, Each-weaken r s rs h rest)

key_le_refl : (a : RunbookDocument) → key_le a a ≡ true
unfolding key_le
key_le_refl a = ground (arith, codes_le_refl (codes a.id))

first-insert_by_key :
    (a : RunbookDocument) (sorted rs : List RunbookDocument)
    → IsTop (first sorted) rs
    → IsTop (first (insert_by_key a sorted)) (a ∷ rs)
unfolding insert_by_key
first-insert_by_key a [] rs h = rw h (inl refl, (key_le_refl a, tt))
first-insert_by_key a (b ∷ rest) rs (member, above) = elim (Bool-cases (key_le b a)) [
  | inl below ↦ rw below (inl refl, (key_le_refl a, Each-weaken b a rs below above))
  | inr over ↦ rw over (inr member, (key_le_total b a over, above))
]

sort_by_key-IsTop : (rs : List RunbookDocument) → IsTop (first (sort_by_key rs)) rs
unfolding sort_by_key
sort_by_key-IsTop [] = refl
sort_by_key-IsTop (r ∷ rs) = first-insert_by_key r (sort_by_key rs) rs (sort_by_key-IsTop rs)

IsIn-kept :
    (test : RunbookDocument → Bool) (r s : RunbookDocument) (rs : List RunbookDocument)
    → (IsIn r (keep test rs) → IsIn r rs × (test r ≡ true))
    → test s ≡ true
    → (r ≡ s) ⊎ IsIn r (keep test rs)
    → IsIn r (s ∷ rs) × (test r ≡ true)
IsIn-kept test r s rs later passes (inl e) = (inl e, ap test e ∙ passes)
IsIn-kept test r s rs later passes (inr m) = (inr (later m).0, (later m).1)

-- The members of a filtered list pass the test, and the members that pass it are in it.
IsIn-keep :
    (test : RunbookDocument → Bool) (r : RunbookDocument) (rs : List RunbookDocument)
    → IsIn r (keep test rs)
    → IsIn r rs × (test r ≡ true)
unfolding keep
IsIn-keep test r [] h = absurd h
IsIn-keep test r (s ∷ rs) h = elim (Bool-cases (test s)) [
  | inl passes ↦ IsIn-kept test r s rs (IsIn-keep test r rs) passes (rw passes at h)
  | inr fails ↦ let (m, p) = IsIn-keep test r rs (rw fails at h) in (inr m, p)
]

Each-keep :
    (test : RunbookDocument → Bool) (Q : RunbookDocument → Type 0) (rs : List RunbookDocument)
    → Each Q (keep test rs)
    → Each (λ r. test r ≡ true → Q r) rs
unfolding keep
Each-keep test Q [] h = tt
Each-keep test Q (r ∷ rs) h = elim (Bool-cases (test r)) [
  | inl passes ↦ let (q, rest) = first_of passes in ((λ _. q), Each-keep test Q rs rest)
  | inr fails ↦ ((λ p. cc), Each-keep test Q rs (rw fails at h))
]
  where
    first_of : test r ≡ true → Q r × Each Q (keep test rs)
    first_of passes = rw passes at h

keep-nil :
    (test : RunbookDocument → Bool) (rs : List RunbookDocument)
    → keep test rs ≡ []
    → Each (λ r. test r ≡ false) rs
unfolding keep
keep-nil test [] h = tt
keep-nil test (r ∷ rs) h = elim (Bool-cases (test r)) [
  | inl passes ↦ cc (rw passes at h)
  | inr fails ↦ (fails, keep-nil test rs (rw fails at h))
]

chosen :
    {P : Platform} (fits : RunbookDocument → Bool) (runbooks : List RunbookDocument)
    (o : Option RunbookDocument) (s : Session P)
    → IsTop o (keep fits runbooks)
    → let r = or_error o runbook_not_found 422 s in
      ((r ≡ (err (cloud_ward_error runbook_not_found 422), s))
        × Each (λ q. fits q ≡ false) runbooks)
      ⊎ ((b : RunbookDocument) × (r ≡ (ok b, s))
          × IsIn b runbooks
          × (fits b ≡ true)
          × Each (λ q. fits q ≡ true → key_le q b ≡ true) runbooks)
chosen fits runbooks none s h = inl (refl, keep-nil fits runbooks h)
chosen fits runbooks (some b) s (member, above) =
    let (inside, passes) = IsIn-keep fits b runbooks member in
    inr (b, refl, inside, passes, Each-keep fits (λ q. key_le q b ≡ true) runbooks above)

-- `match` changes nothing. It raises RUNBOOK_NOT_FOUND with status 422 if no runbook of the
-- environment matches the incident's type with conditions that all hold, and otherwise returns one
-- that does, and none that does has a greater version, or the same version and a greater id.
pub match_runbook-greatest :
    {P : Platform} (runbooks : List RunbookDocument) (incident_type : String)
    (conditions : List String) (environment : String) (s : Session P)
    → let fits = is_candidate incident_type conditions environment in
      let r = match_runbook runbooks incident_type conditions environment s in
      ((r ≡ (err (cloud_ward_error runbook_not_found 422), s))
        × Each (λ q. fits q ≡ false) runbooks)
      ⊎ ((b : RunbookDocument) × (r ≡ (ok b, s))
          × IsIn b runbooks
          × (fits b ≡ true)
          × Each (λ q. fits q ≡ true → key_le q b ≡ true) runbooks)
unfolding match_runbook best
match_runbook-greatest runbooks incident_type conditions environment s =
    let fits = is_candidate incident_type conditions environment in
    chosen fits runbooks (first (sort_by_key (keep fits runbooks))) s
      (sort_by_key-IsTop (keep fits runbooks))
