-- ===== src/Risk/Bounds.antt =====
-- The score of a valid context exists, lies in its range and decides the recommended mode.
use cloud_ward.Prelude.{ℕ, ◌≤◌, ◌≡◌, ◌↔◌, refl, true, some, arith, subst, String}
use cloud_ward.Risk.Floats.{Floats}
use cloud_ward.Risk.Engine.{
  RiskFactors, RiskResult, RiskContext, RecommendedMode, auto_execute, approval_required,
  block_and_escalate, factors_in_range, factor_sum, validate_result, action_destructiveness,
  environment_score, blast_score, sensitivity_score, classify, context_is_valid, risk_factors,
  calculate,
}
use cloud_ward.Actions.Registry.{ActionType}

environment_score-le : (e : String) → environment_score e ≤ 15
unfolding environment_score
environment_score-le e = ground arith

pub action_destructiveness-le : (a : ActionType) → action_destructiveness a ≤ 9
unfolding action_destructiveness
action_destructiveness-le a = ground arith

-- Which scores recommend which mode.
abbrev pub ModeOf : ℕ → RecommendedMode → Type 0
ModeOf score mode =
    ((score ≤ 30) ↔ (mode ≡ auto_execute))
    × (((31 ≤ score) × (score ≤ 69)) ↔ (mode ≡ approval_required))
    × ((70 ≤ score) ↔ (mode ≡ block_and_escalate))

classify-ModeOf : (score : ℕ) → ModeOf score (classify score).1
unfolding classify
classify-ModeOf score = ground arith

factor_sum-le : (f : RiskFactors) → factors_in_range f ≡ true → factor_sum f ≤ 100
unfolding factors_in_range
factor_sum-le f h = ground arith

validate_result-some :
    (r : RiskResult) → r.score ≤ 100 → r.score ≡ factor_sum r.factors → validate_result r ≡ some r
unfolding validate_result
validate_result-some r h k = ground arith

module _ (F : Floats) where
  open F use {Float, at_most, hundredths, one_minus, times_fifteen, round}

  uncertainty-le :
      (c : Float) → at_most (hundredths 0) c ≡ true → round (times_fifteen (one_minus c)) ≤ 15
  uncertainty-le c h =
      let below : at_most (one_minus c) (hundredths 100) ≡ true =
        subst (λ t. at_most (one_minus c) t ≡ true) F.one_minus-zero
          (F.one_minus_anti (hundredths 0) c h) in
      omega (
        arith,
        F.round_mono _ _ (F.times_fifteen_mono (one_minus c) (hundredths 100) below),
        F.round-times_fifteen-one,
      )

  risk_factors-in_range :
      (c : RiskContext F) → context_is_valid F c ≡ true → factors_in_range (risk_factors F c) ≡ true
  unfolding context_is_valid factors_in_range risk_factors blast_score sensitivity_score
  risk_factors-in_range c h = ground (
    arith,
    environment_score-le c.environment,
    action_destructiveness-le c.action,
    uncertainty-le c.confidence,
  )

  -- In a valid context (at least one target, a confidence in [0, 1]) the calculation raises no
  -- validation error. Its score is the sum of its factors and at most 100; the recommended mode is
  -- AUTO_EXECUTE exactly up to 30, APPROVAL_REQUIRED exactly from 31 to 69, and
  -- BLOCK_AND_ESCALATE exactly from 70 on.
  pub calculate-in_bands :
      (c : RiskContext F)
      → context_is_valid F c ≡ true
      → (r : RiskResult) × (calculate F c ≡ some r)
        × (r.factors ≡ risk_factors F c)
        × (r.score ≡ factor_sum r.factors)
        × (r.score ≤ 100)
        × ModeOf r.score r.recommended_mode
  unfolding calculate
  calculate-in_bands c h =
      let f = risk_factors F c in
      let fits = risk_factors-in_range c h in
      let r : RiskResult = record {
        score = factor_sum f;
        classification = (classify (factor_sum f)).0;
        recommended_mode = (classify (factor_sum f)).1;
        factors = f;
      } in
      (
        r,
        rw fits (validate_result-some r (factor_sum-le f fits) refl),
        refl,
        refl,
        factor_sum-le f fits,
        classify-ModeOf (factor_sum f),
      )
