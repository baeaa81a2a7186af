-- ===== src/Strategy/Scores.antt =====
-- Runs of the scores of packages/strategy: the features of packages/replay/catalyst.py.
use alpha_desk.Base.{◌*◌, ◌≡◌, refl, true, not, ◌||◌, arith}
use alpha_desk.Base.Integers.{pos, negsuc, neg, ◌≤ℤ◌, ◌+ℤ◌, ◌-ℤ◌, ◌*ℤ◌, abs, max, min, Within}
use alpha_desk.Domain.Rounding.{quantize, half_even}
use alpha_desk.Domain.Workflow.{CatalystFeatures, FeaturesIsValid}
use alpha_desk.Strategy.Scoring.{clamp, normalized_parts, score_signal, score_signal_bounds}
use alpha_desk.Strategy.Protection.{
  ProtectionContext, ContextIsValid, score_parts, protection_score, evaluate, evaluate_protects,
}

abbrev features : CatalystFeatures
features = record {
  catalyst_confidence = pos 9_100;
  sentiment = pos 7_600;
  relative_volume = pos 32_000;
  price_momentum = pos 6_800;
  gap_percent = pos 42_000;
  market_confirmation = pos 3_000;
  sector_confirmation = pos 5_200;
  liquidity_score = pos 9_300;
}

-- 85.38, of the exact 85.375.
scores : score_signal 100 features ≡ pos 853_800
unfolding score_signal normalized_parts clamp max min abs neg ◌+ℤ◌ ◌-ℤ◌ ◌*ℤ◌ quantize half_even
scores = refl

features_valid : FeaturesIsValid (100 * 100) features
unfolding neg
features_valid = omega arith

score_signal_bounds_example : Within (100 * (100 * 100)) (score_signal 100 features)
score_signal_bounds_example = score_signal_bounds 100 features (omega arith) features_valid

abbrev calm : ProtectionContext
calm = record {
  portfolio_delta = pos 0;
  drawdown_percent = pos 60_000;
  volatility_percentile = pos 8_000;
  trend_score = negsuc 4_999;
  concentration_percent = pos 160_000;
  correlation_score = pos 5_000;
}

abbrev stressed : ProtectionContext
stressed = record calm { drawdown_percent = pos 120_000; trend_score = negsuc 7_999 }

calm_valid : ContextIsValid (100 * 100) calm
unfolding neg
calm_valid = omega arith

stressed_valid : ContextIsValid (100 * 100) stressed
unfolding neg
stressed_valid = omega arith

calm_activates : (evaluate 100 calm).activated ≡ true
unfolding evaluate protection_score score_parts max min neg ◌+ℤ◌ ◌*ℤ◌ quantize half_even
calm_activates = refl

evaluate_protects_example :
    Within (10_000 * 100) (evaluate 100 calm).score
    × ((evaluate 100 calm).score ≤ℤ (evaluate 100 stressed).score)
    × ((not (evaluate 100 calm).activated || (evaluate 100 stressed).activated) ≡ true)
evaluate_protects_example =
    evaluate_protects 100 stressed calm (omega arith) calm_valid stressed_valid (record {
      drawdown = omega arith;
      volatility = omega arith;
      trend = omega arith;
      concentration = omega arith;
      correlation = omega arith;
    })
