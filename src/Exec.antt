-- ===== src/Exec.antt =====
-- An async method of the control plane: it works on a database session and on the world, and may
-- raise. What was written before a raise stays in the session until it is rolled back.
use cloud_ward.Prelude.{Option, none, some, ℕ, String, Bool, List, ◌∷◌, if◌then◌else◌}
use cloud_ward.Errors.{Exception, Result, ok, err}
use cloud_ward.Platform.{Platform, PolicyInput, PolicyResult}
use cloud_ward.Store.Case.{Case}

-- The requests that can change something outside, as they were issued, and OPA's answers.
pub data Call (P : Platform) : Type 0 where
  evaluated : PolicyInput P.floats → PolicyResult → Call P
  deleted_pod : String → String → Call P
  scaled : String → String → ℕ → Call P

-- `live` is what the session sees, `committed` what a rollback returns to. The gauge
-- ACTIVE_INCIDENTS is `opened - closed`; neither it nor a call is undone by a rollback.
pub record Session (P : Platform) : Type 0 where
  pub live : Case
  pub committed : Case
  pub world : P.World
  pub calls : List (Call P)
  pub opened : ℕ
  pub closed : ℕ

abbrev pub Exec {ℓ} : Platform → Type ℓ → Type ℓ
Exec P A = Session P → Result A × Session P

module _ {ℓ} {P : Platform} {A : Type ℓ} where
  abbrev pub pure : A → Exec P A
  pure a s = (ok a, s)

  abbrev pub raise : Exception → Exec P A
  raise e s = (err e, s)

  abbrev pub lift : Result A → Exec P A
  lift r s = (r, s)

  abbrev pub gets : (Session P → A) → Exec P A
  gets f s = (ok (f s), s)

  -- A call of the outside that reports no error of its own.
  unfoldable pub outside : (P.World → A × P.World) → Exec P A
  outside f s = (ok (f s.world).0, record s { world = (f s.world).1 })

  -- `try: … except Exception: …`, whatever is raised.
  abbrev pub caught : Result A × Session P → Result (Option A) × Session P
  caught (ok a, s) = (ok (some a), s)
  caught (err e, s) = (ok none, s)

  unfoldable pub attempt : Exec P A → Exec P (Option A)
  attempt m s = caught (m s)

module _ {ℓ κ} {P : Platform} {A : Type ℓ} {B : Type κ} where
  abbrev pub continue : Result A × Session P → (A → Exec P B) → Result B × Session P
  continue (ok a, s) f = f a s
  continue (err e, s) f = (err e, s)

  infixl 5 ◌>>=◌ ◌>>◌
  abbrev pub ◌>>=◌ : Exec P A → (A → Exec P B) → Exec P B
  ◌>>=◌ m f s = continue (m s) f

  abbrev pub ◌>>◌ : Exec P A → Exec P B → Exec P B
  m >> n = m >>= λ _. n

module _ {P : Platform} where
  abbrev pub modify : (Session P → Session P) → Exec P (Unit {0})
  modify f s = (ok tt, f s)

  -- A change of the rows that the session sees.
  abbrev pub on_rows : (Case → Case) → Exec P (Unit {0})
  on_rows f = modify (λ s. record s { live = f s.live })

  abbrev pub rows : Exec P Case
  rows = gets (λ s. s.live)

  -- `session.commit()` and `session.rollback()`
  abbrev pub commit : Exec P (Unit {0})
  commit = modify (λ s. record s { committed = s.live })

  abbrev pub roll_back : Exec P (Unit {0})
  roll_back = modify (λ s. record s { live = s.committed })

  abbrev pub log_call : Call P → Exec P (Unit {0})
  log_call c = modify (λ s. record s { calls = c ∷ s.calls })

  -- `utc_now()`
  abbrev pub utc_now : Exec P ℕ
  utc_now = outside P.now

  abbrev pub when : Bool → Exec P (Unit {0}) → Exec P (Unit {0})
  when test m = if test then m else pure tt
