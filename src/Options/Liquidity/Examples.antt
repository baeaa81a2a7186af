-- ===== src/Options/Liquidity/Examples.antt =====
-- A run of packages/options/liquidity.py.
use alpha_desk.Base.{◌≡◌, ◌↔◌, true, none, [], ◌∷◌}
use alpha_desk.Base.Integers.{pos}
use alpha_desk.Domain.Options.{LiquidityPolicy, call, long}
use alpha_desk.Options.Liquidity.{evaluate_contract}
use alpha_desk.Options.Liquidity.Eligible.{is_eligible, IsLiquid, evaluate_contract_iff}
use alpha_desk.Samples.{unit, cents, noon, leg}

abbrev policy : LiquidityPolicy
policy = record {
  supported_underlyings = "SPY" ∷ "NVDA" ∷ [];
  min_dte = 7;
  max_dte = 45;
  max_spread_ratio = pos 1_500;
  min_open_interest = none;
  min_quote_size = pos unit;
  max_strike_distance_ratio = pos 3_000;
  max_quote_age_seconds = 30;
  require_greeks = true;
}

evaluate_contract_iff_example :
    (is_eligible
        (evaluate_contract unit (leg call long 10_000 400).contract (cents 10_100) policy (noon 5))
      ≡ true)
    ↔ IsLiquid unit (leg call long 10_000 400).contract (cents 10_100) policy (noon 5)
evaluate_contract_iff_example =
    evaluate_contract_iff unit (leg call long 10_000 400).contract (cents 10_100) policy (noon 5)
