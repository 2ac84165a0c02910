-- ===== src/Verification/Polling.antt =====
-- `VerificationEngine.verify_until` ends, because the clock moves while it sleeps.
use cloud_ward.Prelude.{
  ℕ, zero, suc, ◌+◌, ◌-◌, min, ◌≡◌, ◌≤◌, ◌<◌, ◌⊎◌, inl, inr, refl, true, false, Option, some, arith,
  leb, Bool-cases, leb→le,
}
use cloud_ward.Errors.{Result, ok}
use cloud_ward.Platform.{Platform}
use cloud_ward.Exec.{Exec, Session, outside}
use cloud_ward.Verification.Engine.{
  VerificationResult, VerificationTarget, with_attempts, after_check, verify_rounds, verify_until,
}
use cloud_ward.Verification.Clock.{IsClock, IsRead, IsRead-trans, check_once-IsRead}

module _ {P : Platform} (clock : P.World → ℕ) (moves : IsClock P clock) where
  -- The session after the clock was read once, and after the pause between two rounds.
  abbrev timed : Session P → Session P
  timed t = record t { world = (P.monotonic t.world).1 }

  abbrev paused : ℕ → ℕ → Session P → Session P
  paused deadline poll t =
      let again = P.monotonic (P.monotonic t.world).1 in
      record t { world = P.sleep (min poll (deadline - again.0)) again.1 }

  timed-IsRead : (t : Session P) → IsRead clock t (timed t)
  timed-IsRead t = record {
    same_live = refl;
    same_committed = refl;
    same_calls = refl;
    later = omega (arith, moves.read_after t.world, moves.read_before t.world);
  }

  -- A pause brings the deadline or at least the next millisecond.
  paused-IsRead :
      (deadline poll : ℕ) (t : Session P)
      → 1 ≤ poll
      → IsRead clock t (paused deadline poll t)
        × ((deadline ≤ clock (paused deadline poll t).world)
            ⊎ (clock t.world + 1 ≤ clock (paused deadline poll t).world))
  paused-IsRead deadline poll t h =
      let w = (P.monotonic t.world).1 in
      let again = P.monotonic w in
      let slept = moves.sleeps (min poll (deadline - again.0)) again.1 in
      (
        record {
          same_live = refl;
          same_committed = refl;
          same_calls = refl;
          later = omega (
            arith,
            slept,
            moves.read_after t.world,
            moves.read_before t.world,
            moves.read_after w,
            moves.read_before w,
          );
        },
        ground (
          arith,
          slept,
          moves.read_after t.world,
          moves.read_before t.world,
          moves.read_after w,
          moves.read_before w,
        ),
      )

  -- The end of `verify_until`: within the given number of rounds, with a success or past the
  -- deadline, and without a change of the rows or a request.
  abbrev IsVerified :
      ℕ → ℕ → ℕ → Session P → Result (Option VerificationResult) × Session P → Type 0
  IsVerified deadline done rounds s r =
      (v : VerificationResult) × (r.0 ≡ ok (some v))
      × (done < v.attempts)
      × (v.attempts ≤ done + rounds)
      × ((v.success ≡ true) ⊎ (deadline ≤ clock r.1.world))
      × IsRead clock s r.1

  -- The three ways in which a round ends.
  after_check-good :
      (deadline poll attempts : ℕ) (v : VerificationResult) (t : Session P)
      (rest : Exec P (Option VerificationResult))
      → v.success ≡ true
      → after_check deadline poll attempts v rest t ≡ (ok (some (with_attempts v attempts)), t)
  unfolding after_check
  after_check-good deadline poll attempts v t rest good = rw good refl

  after_check-late :
      (deadline poll attempts : ℕ) (v : VerificationResult) (t : Session P)
      (rest : Exec P (Option VerificationResult))
      → v.success ≡ false
      → leb deadline (P.monotonic t.world).0 ≡ true
      → after_check deadline poll attempts v rest t
        ≡ (ok (some (with_attempts v attempts)), timed t)
  unfolding after_check outside
  after_check-late deadline poll attempts v t rest bad late = rw (bad, late) refl

  after_check-early :
      (deadline poll attempts : ℕ) (v : VerificationResult) (t : Session P)
      (rest : Exec P (Option VerificationResult))
      → v.success ≡ false
      → leb deadline (P.monotonic t.world).0 ≡ false
      → after_check deadline poll attempts v rest t ≡ rest (paused deadline poll t)
  unfolding after_check outside
  after_check-early deadline poll attempts v t rest bad early = rw (bad, early) refl

  IsVerified-later :
      (deadline done rounds : ℕ) (s u : Session P)
      (r : Result (Option VerificationResult) × Session P)
      → IsRead clock s u
      → IsVerified deadline (done + 1) rounds u r
      → IsVerified deadline done (suc rounds) s r
  IsVerified-later deadline done rounds s u r read (v, e, more, fewer, ends, later) =
      (v, e, omega (arith, more), omega (arith, fewer), ends, IsRead-trans clock s u r.1 read later)

  after_check-IsVerified :
      (rounds deadline poll done : ℕ) (s t : Session P) (v : VerificationResult)
      (rest : Exec P (Option VerificationResult))
      → 1 ≤ poll
      → deadline ≤ clock s.world + rounds
      → IsRead clock s t
      → ((u : Session P)
          → 1 ≤ rounds
          → deadline + 1 ≤ clock u.world + rounds
          → IsVerified deadline (done + 1) rounds u (rest u))
      → (v.success ≡ true) ⊎ (v.success ≡ false)
      → (leb deadline (P.monotonic t.world).0 ≡ true)
        ⊎ (leb deadline (P.monotonic t.world).0 ≡ false)
      → IsVerified deadline done (suc rounds) s (after_check deadline poll (done + 1) v rest t)
  after_check-IsVerified rounds deadline poll done s t v rest h k read going_on (inl good) _ =
      rw (after_check-good deadline poll (done + 1) v t rest good)
        (with_attempts v (done + 1), refl, omega arith, omega arith, inl good, read)
  after_check-IsVerified rounds deadline poll done s t v rest h k read going_on (inr bad)
        (inl late) =
      rw (after_check-late deadline poll (done + 1) v t rest bad late) (
        with_attempts v (done + 1),
        refl,
        omega arith,
        omega arith,
        inr (
            omega (arith, leb→le deadline (P.monotonic t.world).0 late, moves.read_before t.world)),
        IsRead-trans clock s t (timed t) read (timed-IsRead t),
      )
  after_check-IsVerified rounds deadline poll done s t v rest h k read going_on (inr bad)
        (inr early) =
      let (pause, progress) = paused-IsRead deadline poll t h in
      let remain : 1 ≤ rounds = ground (arith, read.later, moves.read_after t.world) in
      rw (after_check-early deadline poll (done + 1) v t rest bad early) (
        IsVerified-later deadline done rounds s (paused deadline poll t) _
          (IsRead-trans clock s t (paused deadline poll t) read pause)
          (going_on (paused deadline poll t) remain (ground (arith, progress, read.later))))

  verify_rounds-IsVerified :
      (rounds : ℕ) (target : VerificationTarget) (deadline poll done : ℕ) (s : Session P)
      → 1 ≤ poll
      → deadline ≤ clock s.world + rounds
      → IsVerified deadline done
          (suc rounds)
          s
          (verify_rounds (suc rounds) target deadline poll done s)
  unfolding verify_rounds
  verify_rounds-IsVerified zero target deadline poll done s h k =
      let (v, t, e, read) = check_once-IsRead clock moves target s in
      rw e (
        after_check-IsVerified 0 deadline poll done s t v _ h k read
          (λ u none_left _. absurd (omega (arith, none_left))) (Bool-cases v.success)
          (Bool-cases (leb deadline (P.monotonic t.world).0)))
  verify_rounds-IsVerified (suc n) target deadline poll done s h k =
      let (v, t, e, read) = check_once-IsRead clock moves target s in
      rw e (
        after_check-IsVerified (suc n) deadline poll done s t v _ h k read
          (λ u _ near.
            verify_rounds-IsVerified n target deadline poll (done + 1) u h (omega (arith, near)))
          (Bool-cases v.success) (Bool-cases (leb deadline (P.monotonic t.world).0)))

-- `verify_until` always returns, if the poll interval is at least a millisecond and the clock is one:
-- timeout + 1 rounds are enough. The result succeeded, or the timeout has passed; and no row was
-- changed and no change requested outside.
pub verify_until-returns :
    {P : Platform} (clock : P.World → ℕ) (target : VerificationTarget) (timeout poll : ℕ)
    (s : Session P)
    → IsClock P clock
    → 1 ≤ poll
    → let r = verify_until (suc timeout) target timeout poll s in
      (v : VerificationResult) × (r.0 ≡ ok (some v))
      × (1 ≤ v.attempts)
      × (v.attempts ≤ timeout + 1)
      × ((v.success ≡ true) ⊎ (clock s.world + timeout ≤ clock r.1.world))
      × IsRead clock s r.1
unfolding verify_until outside
verify_until-returns {P} clock target timeout poll s moves h =
    let start = P.monotonic s.world in
    let u : Session P = record s { world = start.1 } in
    let (v, e, more, fewer, ends, later) =
      verify_rounds-IsVerified clock moves timeout target (start.0 + timeout) poll 0 u h
        (omega (arith, moves.read_before s.world)) in
    (
      v,
      e,
      omega (arith, more),
      omega (arith, fewer),
      ground (arith, ends, moves.read_after s.world),
      IsRead-trans clock s u _ (timed-IsRead clock moves s) later,
    )
