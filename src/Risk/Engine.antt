-- ===== src/Risk/Engine.antt =====
-- backend/app/risk/engine.py: the factors of a score, their declared ranges, and the band of a
-- score. `none` is pydantic's ValidationError.
use cloud_ward.Prelude.{
  ℕ, ◌+◌, Bool, Option, none, some, String, str_eq, leb, ◌==◌, ◌&&◌, if◌then◌else◌,
}
use cloud_ward.Actions.Registry.{
  ActionType, delete_unhealthy_pod, restart_pod, scale_staging_deployment, scale_workload,
  revert_image, rollback_deployment, apply_quarantine, quarantine_workload, remove_quarantine,
  create_gitops_pr, create_terraform_pr, create_github_issue, request_approval, no_action,
  action_registry,
}
use cloud_ward.Risk.Floats.{Floats}

pub data RiskClassification : Type 0 where
  low medium high : RiskClassification

pub data RecommendedMode : Type 0 where
  auto_execute approval_required block_and_escalate : RecommendedMode

-- `Sensitivity`
pub data Sensitivity : Type 0 where
  none_sensitive low_sensitive moderate_sensitive high_sensitive : Sensitivity

pub record RiskFactors : Type 0 where
  pub environment : ℕ
  pub blast_radius : ℕ
  pub destructiveness : ℕ
  pub reversibility : ℕ
  pub uncertainty : ℕ
  pub sensitivity : ℕ

-- The upper bounds that `RiskFactors` declares for its fields.
unfoldable pub factors_in_range : RiskFactors → Bool
factors_in_range f =
    leb f.environment 15
    && leb f.blast_radius 25
    && leb f.destructiveness 20
    && leb f.reversibility 15
    && leb f.uncertainty 15
    && leb f.sensitivity 10

abbrev pub factor_sum : RiskFactors → ℕ
factor_sum f =
    f.environment + f.blast_radius + f.destructiveness + f.reversibility + f.uncertainty
    + f.sensitivity

pub record RiskResult : Type 0 where
  pub score : ℕ
  pub classification : RiskClassification
  pub recommended_mode : RecommendedMode
  pub factors : RiskFactors

-- The range of `score`, and the validator `score_matches_factors`.
unfoldable pub validate_result : RiskResult → Option RiskResult
validate_result r = if leb r.score 100 && r.score == factor_sum r.factors then some r else none

-- DESTRUCTIVENESS
unfoldable pub action_destructiveness : ActionType → ℕ
action_destructiveness delete_unhealthy_pod = 3
action_destructiveness restart_pod = 3
action_destructiveness scale_staging_deployment = 5
action_destructiveness scale_workload = 5
action_destructiveness revert_image = 8
action_destructiveness rollback_deployment = 8
action_destructiveness apply_quarantine = 9
action_destructiveness quarantine_workload = 9
action_destructiveness remove_quarantine = 7
action_destructiveness create_gitops_pr = 2
action_destructiveness create_terraform_pr = 4
action_destructiveness create_github_issue = 0
action_destructiveness request_approval = 0
action_destructiveness no_action = 0

-- The dictionary of environments, with its default.
unfoldable pub environment_score : String → ℕ
environment_score environment =
    if str_eq environment "local"
    then 1
    else if str_eq environment "development"
    then 1
    else if str_eq environment "staging"
    then 4
    else if str_eq environment "production"
    then 15
    else 10

unfoldable pub blast_score : ℕ → ℕ
blast_score target_count =
    if target_count == 1
    then 3
    else if leb target_count 3
    then 8
    else if leb target_count 10
    then 15
    else 25

unfoldable pub sensitivity_score : Sensitivity → ℕ
sensitivity_score none_sensitive = 0
sensitivity_score low_sensitive = 2
sensitivity_score moderate_sensitive = 6
sensitivity_score high_sensitive = 10

-- `metadata.reversible if context.reversible is None else context.reversible`
abbrev pub reversible_or : Bool → Option Bool → Bool
reversible_or default none = default
reversible_or default (some b) = b

-- The band of a score: its class, and the mode that is recommended for it.
unfoldable pub classify : ℕ → RiskClassification × RecommendedMode
classify score =
    if leb score 30
    then (low, auto_execute)
    else if leb score 69
    then (medium, approval_required)
    else (high, block_and_escalate)

module _ (F : Floats) where
  open F use {Float, at_most, hundredths, one_minus, times_fifteen, round}

  pub record RiskContext : Type 0 where
    pub environment : String
    pub action : ActionType
    pub target_count : ℕ
    pub reversible : Option Bool
    pub confidence : Float
    pub sensitivity : Sensitivity
    pub destructive_override : Bool

  -- The declared ranges of the context: `ge=1` for the count, `ge=0, le=1` for the confidence.
  unfoldable pub context_is_valid : RiskContext → Bool
  context_is_valid c =
      leb 1 c.target_count
      && at_most (hundredths 0) c.confidence
      && at_most c.confidence (hundredths 100)

  unfoldable pub risk_factors : RiskContext → RiskFactors
  risk_factors c = record {
    environment = environment_score c.environment;
    blast_radius = blast_score c.target_count;
    destructiveness = if c.destructive_override then 20 else action_destructiveness c.action;
    reversibility =
        if reversible_or (action_registry c.action).reversible c.reversible then 2 else 15;
    uncertainty = round (times_fifteen (one_minus c.confidence));
    sensitivity = sensitivity_score c.sensitivity;
  }

  -- `RiskEngine.calculate`
  unfoldable pub calculate : RiskContext → Option RiskResult
  unfolding classify
  calculate c =
      let factors = risk_factors c in
      let score = factor_sum factors in
      let (classification, mode) = classify score in
      if factors_in_range factors
      then validate_result (record {
        score = score;
        classification = classification;
        recommended_mode = mode;
        factors = factors;
      })
      else none
