-- ===== src/Runbooks/Texts.antt =====
-- Python's order of texts, by their code points, which compares the ids of runbooks.
use Prim.Native.String.{String}
use cloud_ward.Prelude.{
  ℕ, ◌≡◌, refl, Bool, true, false, List, [], ◌∷◌, ◌&&◌, ◌||◌, ◌==◌, ltb, arith,
}
use Prim.Native.Char.{code}

abbrev pub codes : String → List ℕ
codes String.[] = []
codes (String.◌∷◌ c s) = code c ∷ codes s

-- `a <= b`
unfoldable pub codes_le : List ℕ → List ℕ → Bool
codes_le [] bs = true
codes_le (a ∷ as_) [] = false
codes_le (a ∷ as_) (b ∷ bs) = ltb a b || a == b && codes_le as_ bs

pub codes_le_total : (xs ys : List ℕ) → (codes_le xs ys ≡ false) → (codes_le ys xs ≡ true)
unfolding codes_le
codes_le_total [] ys h = cc
codes_le_total (x ∷ xs) [] h = refl
codes_le_total (x ∷ xs) (y ∷ ys) h = ground (arith, codes_le_total xs ys)

pub codes_le_trans :
    (xs ys zs : List ℕ) → codes_le xs ys ≡ true → codes_le ys zs ≡ true → codes_le xs zs ≡ true
unfolding codes_le
codes_le_trans [] ys zs h k = refl
codes_le_trans (x ∷ xs) [] zs h k = cc
codes_le_trans (x ∷ xs) (y ∷ ys) [] h k = cc
codes_le_trans (x ∷ xs) (y ∷ ys) (z ∷ zs) h k = ground (arith, codes_le_trans xs ys zs)

pub codes_le_refl : (xs : List ℕ) → codes_le xs xs ≡ true
unfolding codes_le
codes_le_refl [] = refl
codes_le_refl (x ∷ xs) = ground (arith, codes_le_refl xs)
