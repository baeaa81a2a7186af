-- ===== src/Strategy/Examples.antt =====
-- Runs of packages/strategy.
use alpha_desk.Base.{◌≡◌, ◌↔◌, refl, true, false, some, [], ◌∷◌}
use alpha_desk.Base.Integers.{pos, negsuc, neg, ◌*ℤ◌}
use alpha_desk.Base.Results.{ok}
use alpha_desk.Domain.Options.{OptionStructure, bull_put_credit_spread}
use alpha_desk.Domain.Workflow.{Signal}
use alpha_desk.Strategy.Volatility.{
  VolatilityPremiumContext, VolatilityAssessment, sorted_by_key, rank_candidates,
}
use alpha_desk.Strategy.Catalyst.{evaluate_signal, is_trade, Confirmed, evaluate_signal_trades_iff}
use alpha_desk.Samples.{cents, noon, bull_call}

abbrev context : VolatilityPremiumContext
context = record {
  iv_percentile = pos 8_000;
  realized_volatility_percentile = pos 5_000;
  event_risk = false;
  tail_risk_score = pos 3_000;
  trend_score = pos 0;
}

abbrev small : OptionStructure
small = record bull_call { structure_type = bull_put_credit_spread; max_loss = cents 10_000 }

abbrev large : OptionStructure
large = record bull_call { structure_type = bull_put_credit_spread; max_loss = cents 40_000 }

abbrev assessment : VolatilityAssessment
assessment = record {
  eligible = true;
  premium_edge = pos 3_000;
  reason_codes = [];
  preferred_structure = some bull_put_credit_spread;
}

ranks : rank_candidates assessment (large ∷ bull_call ∷ small ∷ []) ≡ ok (small ∷ large ∷ [])
unfolding rank_candidates sorted_by_key ◌*ℤ◌ neg
ranks = refl

abbrev signal : Signal
signal = record {
  signal_id = "signal-1";
  symbol = "NVDA";
  strategy_family = "CATALYST_MOMENTUM";
  observed_at = noon 0;
  features = record {
    catalyst_confidence = pos 9_000;
    sentiment = negsuc 4_999;
    relative_volume = pos 25_000;
    price_momentum = negsuc 2_999;
    gap_percent = negsuc 29_999;
    market_confirmation = pos 0;
    sector_confirmation = pos 0;
    liquidity_score = pos 8_000;
  };
  score = pos 720_000;
  source_versions = [];
}

evaluate_signal_trades_iff_example :
    (is_trade 100
        (pos 650_000)
        (pos 120_000)
        (evaluate_signal 100 (pos 650_000) (pos 120_000) "idea-1" (noon 9) signal)
      ≡ true)
    ↔ Confirmed 100 (pos 650_000) (pos 120_000) signal
evaluate_signal_trades_iff_example =
    evaluate_signal_trades_iff 100 (pos 650_000) (pos 120_000) "idea-1" (noon 9) signal
