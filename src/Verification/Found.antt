-- ===== src/Verification/Found.antt =====
-- backend/app/verification/engine.py: where the result of `verify_until` comes from.
use cloud_ward.Prelude.{
  ℕ, zero, suc, ◌+◌, ◌≡◌, refl, inl, inr, Bool-cases, leb, some, none, Option, ap, ◌∙◌,
}
use cloud_ward.Errors.{Result, ok, err}
use cloud_ward.Platform.{Platform}
use cloud_ward.Exec.{Exec, Session, outside, continue}
use cloud_ward.Verification.Engine.{
  VerificationResult, VerificationTarget, check_once, after_check, verify_rounds, verify_until,
}

-- The result has the checks of a round on the target, and succeeds with it.
abbrev pub IsFound : (P : Platform) → VerificationTarget → VerificationResult → Type 0
IsFound P target v =
    (t : Session P) × (w : VerificationResult) × ((check_once target t).0 ≡ ok w)
    × (w.checks ≡ v.checks)
    × (w.success ≡ v.success)

-- Every result of a run of rounds is found.
abbrev AreFound : (P : Platform) → VerificationTarget → Result (Option VerificationResult) → Type 0
AreFound P target (ok none) = Unit
AreFound P target (ok (some v)) = IsFound P target v
AreFound P target (err e) = Unit

module _ {P : Platform} (target : VerificationTarget) where
  after_check-AreFound :
      (deadline poll attempts : ℕ) (last : VerificationResult)
      (rest : Exec P (Option VerificationResult)) (t : Session P)
      → IsFound P target last
      → ((u : Session P) → AreFound P target (rest u).0)
      → AreFound P target (after_check deadline poll attempts last rest t).0
  unfolding after_check outside
  after_check-AreFound deadline poll attempts last rest t (u, w, e, checks, same) k =
      elim (Bool-cases last.success) [
        | inl good ↦ rw good (u, w, e, checks, same ∙ good)
        | inr bad ↦ elim (Bool-cases (leb deadline (P.monotonic t.world).0)) [
          | inl late ↦ rw (bad, late) (u, w, e, checks, same ∙ bad)
          | inr early ↦ rw (bad, early) (k _)
        ]
      ]

  checked-AreFound :
      (deadline poll attempts : ℕ) (s : Session P) (q : Result VerificationResult × Session P)
      (rest : Exec P (Option VerificationResult))
      → check_once target s ≡ q
      → ((u : Session P) → AreFound P target (rest u).0)
      → AreFound P target (continue q (λ last. after_check deadline poll attempts last rest)).0
  checked-AreFound deadline poll attempts s (ok last, t) rest e k =
      after_check-AreFound deadline poll attempts last rest t (s, last, ap (λ q. q.0) e, refl, refl)
        k
  checked-AreFound deadline poll attempts s (err e, t) rest _ k = tt

  verify_rounds-AreFound :
      (fuel deadline poll attempts : ℕ) (s : Session P)
      → AreFound P target (verify_rounds fuel target deadline poll attempts s).0
  unfolding verify_rounds
  verify_rounds-AreFound zero deadline poll attempts s = tt
  verify_rounds-AreFound (suc fuel) deadline poll attempts s =
      checked-AreFound deadline poll (attempts + 1) s (check_once target s) _ refl
        (λ u. verify_rounds-AreFound fuel deadline poll (attempts + 1) u)

  -- A result of `verify_until` has the checks of one of its rounds.
  pub verify_until-IsFound :
      (fuel timeout poll : ℕ) (s : Session P) (v : VerificationResult)
      → (verify_until fuel target timeout poll s).0 ≡ ok (some v)
      → IsFound P target v
  unfolding verify_until outside
  verify_until-IsFound fuel timeout poll s v e =
      let start = P.monotonic s.world in
      rw e at
        (verify_rounds-AreFound fuel (start.0 + timeout) poll 0 (record s { world = start.1 }))
