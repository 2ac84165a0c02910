-- ===== src/Risk/Order.antt =====
-- How the score moves with the context.
use cloud_ward.Prelude.{ℕ, ◌≤◌, ◌≡◌, refl, ap, ◌∙◌, true, false, some, arith}
use cloud_ward.Risk.Floats.{Floats}
use cloud_ward.Risk.Engine.{
  RiskResult, RiskContext, factor_sum, validate_result, classify, blast_score, sensitivity_score,
  risk_factors, environment_score, high, block_and_escalate, calculate,
}
use cloud_ward.Risk.Bounds.{action_destructiveness-le}

blast_score_mono : (m n : ℕ) → 1 ≤ m → m ≤ n → blast_score m ≤ blast_score n
unfolding blast_score
blast_score_mono m n p h = ground arith

environment_score-production : environment_score "production" ≡ 15
unfolding environment_score
environment_score-production = refl

classify_high : (n : ℕ) → 70 ≤ n → classify n ≡ (high, block_and_escalate)
unfolding classify
classify_high n h = ground arith

module _ (F : Floats) where
  open F use {Float, at_most, one_minus, times_fifteen, round}

  -- `d` differs from `c` only to the worse: more targets, less confidence, a more sensitive
  -- workload, or a destructive override.
  pub record IsWorse (c d : RiskContext F) : Type 0 where
    pub same_environment : d.environment ≡ c.environment
    pub same_action : d.action ≡ c.action
    pub same_reversible : d.reversible ≡ c.reversible
    pub more_targets : c.target_count ≤ d.target_count
    pub less_confidence : at_most d.confidence c.confidence ≡ true
    pub more_sensitive : sensitivity_score c.sensitivity ≤ sensitivity_score d.sensitivity
    pub override_kept : c.destructive_override ≡ true → d.destructive_override ≡ true

  risk_factors_mono :
      (c d : RiskContext F)
      → 1 ≤ c.target_count
      → IsWorse c d
      → factor_sum (risk_factors F c) ≤ factor_sum (risk_factors F d)
  unfolding risk_factors
  risk_factors_mono c d p w = ground (
    arith,
    blast_score_mono c.target_count d.target_count p w.more_targets,
    action_destructiveness-le c.action,
    F.round_mono _ _
        (F.times_fifteen_mono _ _ (F.one_minus_anti d.confidence c.confidence w.less_confidence)),
    w.same_environment,
    w.same_action,
    w.same_reversible,
    w.more_sensitive,
    w.override_kept,
  )

  calculate-score :
      (c : RiskContext F) (r : RiskResult)
      → calculate F c ≡ some r
      → r.score ≡ factor_sum (risk_factors F c)
  unfolding calculate validate_result
  calculate-score c r h = ground arith

  -- Of two contexts that are both scored, the worse one (more targets, less confidence, a more
  -- sensitive workload, an added destructive override, all else equal) never has the lower score.
  pub calculate_mono :
      (c d : RiskContext F) (r s : RiskResult)
      → 1 ≤ c.target_count
      → IsWorse c d
      → calculate F c ≡ some r
      → calculate F d ≡ some s
      → r.score ≤ s.score
  calculate_mono c d r s p w hc hd =
      omega (arith, risk_factors_mono c d p w, calculate-score c r hc, calculate-score d s hd)

  -- A destructive override in production on more than ten targets that is declared irreversible
  -- is recommended to be blocked, whatever the action, the confidence and the sensitivity.
  pub destructive_production_blocked :
      (c : RiskContext F) (r : RiskResult)
      → c.environment ≡ "production"
      → c.destructive_override ≡ true
      → c.reversible ≡ some false
      → 11 ≤ c.target_count
      → calculate F c ≡ some r
      → r.recommended_mode ≡ block_and_escalate
  unfolding calculate validate_result risk_factors blast_score
  destructive_production_blocked c r e o i n h = ground (
    arith,
    ap environment_score e ∙ environment_score-production,
    classify_high (factor_sum (risk_factors F c)),
  )
