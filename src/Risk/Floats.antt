-- ===== src/Risk/Floats.antt =====
-- Python's floats, which the risk engine uses for one factor. They are a parameter of the model:
-- the operations that `RiskEngine.calculate` applies, with the laws of IEEE 754 arithmetic and of
-- `round` that it relies on (each operation is monotone, and exact at the given literals, and a
-- decimal literal is rounded to the nearest float).
use cloud_ward.Prelude.{ℕ, ◌≤◌, ◌≡◌, Bool, true}

pub record Floats : Type 1 where
  pub Float : Type 0
  -- `a <= b`
  pub at_most : Float → Float → Bool
  -- The literal n / 100: `hundredths 98` is 0.98.
  pub hundredths : ℕ → Float
  -- `1 - a`
  pub one_minus : Float → Float
  -- `a * 15`
  pub times_fifteen : Float → Float
  -- `round(a)`, for an `a` that is not negative
  pub round : Float → ℕ
  pub hundredths_mono : (m n : ℕ) → m ≤ n → at_most (hundredths m) (hundredths n) ≡ true
  pub one_minus-zero : one_minus (hundredths 0) ≡ hundredths 100
  pub one_minus_anti :
      (a b : Float) → at_most a b ≡ true → at_most (one_minus b) (one_minus a) ≡ true
  pub times_fifteen_mono :
      (a b : Float) → at_most a b ≡ true → at_most (times_fifteen a) (times_fifteen b) ≡ true
  pub round_mono : (a b : Float) → at_most a b ≡ true → round a ≤ round b
  pub round-times_fifteen-one : round (times_fifteen (hundredths 100)) ≡ 15
