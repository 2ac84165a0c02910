-- ===== src/Prelude/Lists.antt =====
-- Lists measured by native numbers, and the searches that the program makes.
use Prim.Native.Nat.{ℕ, suc, ◌+◌}
use Prim.Native.String.{String}
use mathlib.Core.Path.{◌≡◌, ap, subst}
use mathlib.Core.Logic.{inl, inr}
use mathlib.Core.Bool.{Bool, true, false, ◌||◌, ◌&&◌}
use mathlib.Core.List.{List, [], ◌∷◌, ◌++◌}
use mathlib.Core.Option.{Option, none, some}
use native.Mathlib.Omega.{arith}
use text.Mathlib.Text.{◌==◌ as str_eq}
use cloud_ward.Prelude.Tests.{if◌then◌else◌, Bool-cases}

module _ {ℓ} {A : Type ℓ} where
  abbrev pub length : List A → ℕ
  length [] = 0
  length (x ∷ xs) = suc (length xs)

  -- The first item that passes the test.
  unfoldable pub find : (A → Bool) → List A → Option A
  find p [] = none
  find p (x ∷ xs) = let rest = find p xs in if p x then some x else rest

  -- The items that pass the test, in order.
  unfoldable pub keep : (A → Bool) → List A → List A
  keep p [] = []
  keep p (x ∷ xs) = let rest = keep p xs in if p x then x ∷ rest else rest

  unfoldable pub all : (A → Bool) → List A → Bool
  all p [] = true
  all p (x ∷ xs) = p x && all p xs

  unfoldable pub any : (A → Bool) → List A → Bool
  any p [] = false
  any p (x ∷ xs) = p x || any p xs

  -- Every item that passes the test is replaced.
  unfoldable pub update_where : (A → Bool) → (A → A) → List A → List A
  update_where p f [] = []
  update_where p f (x ∷ xs) = (if p x then f x else x) ∷ update_where p f xs

  abbrev mapped : (A → A) → Option A → Option A
  mapped f none = none
  mapped f (some x) = some (f x)

  pub find-update_where :
      (p : A → Bool) (f : A → A) (r : A) (xs : List A)
      → ((x : A) → p (f x) ≡ p x)
      → find p xs ≡ some r
      → find p (update_where p f xs) ≡ some (f r)
  unfolding find update_where
  find-update_where p f r [] h k = cc
  find-update_where p f r (x ∷ xs) h k = elim (Bool-cases (p x)) [
    | inl hit ↦
        let same : some x ≡ some r = rw hit at k in rw (hit, h x, hit) (ap (λ o. mapped f o) same)
    | inr miss ↦ rw (miss, miss) (find-update_where p f r xs h (rw miss at k))
  ]

  abbrev IsPassing : (A → Bool) → Option A → Type 0
  IsPassing p none = Unit
  IsPassing p (some x) = p x ≡ true

  -- What is found passes the test.
  pub find-passes : (p : A → Bool) (r : A) (xs : List A) → find p xs ≡ some r → p r ≡ true
  unfolding find
  find-passes p r [] h = cc
  find-passes p r (x ∷ xs) h = elim (Bool-cases (p x)) [
    | inl hit ↦ subst (λ o. IsPassing p o) (rw hit at h) hit
    | inr miss ↦ find-passes p r xs (rw miss at h)
  ]

  pub length-append : (xs ys : List A) → length (xs ++ ys) ≡ length xs + length ys
  length-append [] ys = omega arith
  length-append (x ∷ xs) ys = omega (arith, length-append xs ys)

-- `t in texts`
unfoldable pub has_text : String → List String → Bool
has_text t [] = false
has_text t (s ∷ rest) = str_eq t s || has_text t rest
