-- ===== src/Tests/Gates.antt =====
-- Scores, roles and registry lookups at concrete inputs.
use cloud_ward.Prelude.{◌≡◌, ◌≤◌, refl, true, false, some, arith}
use cloud_ward.Actions.Registry.{delete_unhealthy_pod}
use cloud_ward.Rbac.{operator, admin, demo_trigger, has_permission}
use cloud_ward.Rbac.Hierarchy.{has_permission_mono}
use cloud_ward.Risk.Engine.{
  RiskContext, RiskResult, factors_in_range, environment_score, blast_score, action_destructiveness,
  sensitivity_score, validate_result, none_sensitive, high_sensitive, low, medium, high,
  auto_execute, approval_required, classify, block_and_escalate, calculate, context_is_valid,
  risk_factors, factor_sum,
}
use cloud_ward.Risk.Bounds.{ModeOf, calculate-in_bands}
use cloud_ward.Risk.Order.{IsWorse, calculate_mono, destructive_production_blocked}
use cloud_ward.Tests.World.{whole_floats}

operator_may_trigger : has_permission operator demo_trigger ≡ true
unfolding has_permission
operator_may_trigger = refl

has_permission_mono_example : has_permission admin demo_trigger ≡ true
has_permission_mono_example =
    has_permission_mono operator admin demo_trigger (omega arith) operator_may_trigger

-- One pod in staging, and the same with more targets and less confidence.
abbrev mild : RiskContext whole_floats
mild = record {
  environment = "staging";
  action = delete_unhealthy_pod;
  target_count = 1;
  reversible = some true;
  confidence = 98;
  sensitivity = none_sensitive;
  destructive_override = false;
}

abbrev worse : RiskContext whole_floats
worse = record mild { target_count = 12; confidence = 50; sensitivity = high_sensitive }

abbrev worst : RiskContext whole_floats
worst = record worse {
  environment = "production";
  reversible = some false;
  destructive_override = true;
}

mild_is_valid : context_is_valid whole_floats mild ≡ true
unfolding context_is_valid
mild_is_valid = refl

calculate-in_bands_example :
    (r : RiskResult) × (calculate whole_floats mild ≡ some r)
    × (r.factors ≡ risk_factors whole_floats mild)
    × (r.score ≡ factor_sum r.factors)
    × (r.score ≤ 100)
    × ModeOf r.score r.recommended_mode
calculate-in_bands_example = calculate-in_bands whole_floats mild mild_is_valid

abbrev mild_result : RiskResult
mild_result = record {
  score = 12;
  classification = low;
  recommended_mode = auto_execute;
  factors = record {
    environment = 4;
    blast_radius = 3;
    destructiveness = 3;
    reversibility = 2;
    uncertainty = 0;
    sensitivity = 0;
  };
}

abbrev worse_result : RiskResult
worse_result = record {
  score = 52;
  classification = medium;
  recommended_mode = approval_required;
  factors = record {
    environment = 4;
    blast_radius = 25;
    destructiveness = 3;
    reversibility = 2;
    uncertainty = 8;
    sensitivity = 10;
  };
}

abbrev worst_result : RiskResult
worst_result = record {
  score = 93;
  classification = high;
  recommended_mode = block_and_escalate;
  factors = record {
    environment = 15;
    blast_radius = 25;
    destructiveness = 20;
    reversibility = 15;
    uncertainty = 8;
    sensitivity = 10;
  };
}

mild_run : calculate whole_floats mild ≡ some mild_result
unfolding calculate classify factors_in_range risk_factors environment_score blast_score
    action_destructiveness sensitivity_score validate_result
mild_run = refl

worse_run : calculate whole_floats worse ≡ some worse_result
unfolding calculate classify factors_in_range risk_factors environment_score blast_score
    action_destructiveness sensitivity_score validate_result
worse_run = refl

worst_run : calculate whole_floats worst ≡ some worst_result
unfolding calculate classify factors_in_range risk_factors environment_score blast_score
    action_destructiveness sensitivity_score validate_result
worst_run = refl

mild-IsWorse : IsWorse whole_floats mild worse
unfolding sensitivity_score
mild-IsWorse = record {
  same_environment = refl;
  same_action = refl;
  same_reversible = refl;
  more_targets = omega arith;
  less_confidence = refl;
  more_sensitive = omega arith;
  override_kept = λ h. h;
}

calculate_mono_example : 12 ≤ 52
calculate_mono_example =
    calculate_mono whole_floats mild worse mild_result worse_result (omega arith) mild-IsWorse
      mild_run worse_run

destructive_production_blocked_example : worst_result.recommended_mode ≡ block_and_escalate
destructive_production_blocked_example =
    destructive_production_blocked whole_floats worst worst_result refl refl refl (omega arith)
      worst_run
