-- ===== src/Samples.antt =====
-- Data on which the examples run: the legs of tests/unit/test_options_engine.py and
-- packages/replay/catalyst.py. Decimals are counted in ten-thousandths.
use alpha_desk.Base.{ℕ, ◌*◌, ◌+◌, ◌≡◌, refl, map, true, false, none, some, String, List, [], ◌∷◌}
use alpha_desk.Base.Integers.{pos, negsuc, ◌+ℤ◌, ◌-ℤ◌, ◌*ℤ◌, abs}
use alpha_desk.Base.Results.{ok}
use alpha_desk.Domain.Time.{Datetime, micros_per_second}
use alpha_desk.Domain.Options.{
  Decimal, OptionType, call, put, LegSide, long, short, Greeks, OptionLeg, OptionStructure,
  bull_call_debit_spread,
}
use alpha_desk.Domain.System.{reconciled}
use alpha_desk.Domain.Broker.{BrokerAccount, BrokerOrder, BrokerSyncStatus}
use alpha_desk.Domain.Workflow.{
  Uuid, RankedCandidate, RiskDecision, Texts, OrderIntent, stable_client_order_id,
}
use alpha_desk.Options.Engine.{
  build_structure, validate_common, validate_legs, terms_of, premium_of, aggregate_greeks,
  add_leg_greeks, add_shares, vertical_terms, debit_terms, long_and_short,
}
use alpha_desk.Risk.Engine.{RiskContext, default_policy, evaluate, checks_of, greeks_within}
use alpha_desk.Execution.Intents.{intent_leg, create_order_intent}

abbrev pub unit : ℕ
unit = 10_000

abbrev pub cents : ℕ → Decimal
cents n = pos (n * 100)

-- Noon of the day 739_860, some seconds later.
abbrev pub noon : ℕ → Datetime
noon seconds = record {
  micros = (739_860 * 86_400 + 43_200 + seconds) * micros_per_second;
  has_tzinfo = true;
}

abbrev pub greeks : Greeks
greeks = record { delta = pos 5000; gamma = pos 300; theta = negsuc 399; vega = pos 1200 }

abbrev pub leg : OptionType → LegSide → ℕ → ℕ → OptionLeg
leg kind side strike entry = record {
  contract = record {
    contract_id = "fixture";
    symbol = "NVDA260925";
    underlying_symbol = "NVDA";
    expiration = 739_880;
    strike = cents strike;
    option_type = kind;
    multiplier = 100;
    tradable = true;
    quote = record {
      bid = cents entry;
      ask = cents (entry + 10);
      bid_size = pos 400_000;
      ask_size = pos 380_000;
      quoted_at = noon 0;
      open_interest = some 2400;
      volume = some 850;
      implied_volatility = some (pos 3800);
      greeks = some greeks;
    };
  };
  side = side;
  ratio = 1;
  entry_price = cents entry;
}

-- The bull call spread 120/125 at 4.20 and 2.10.
abbrev pub bull_call_legs : List OptionLeg
bull_call_legs = leg call long 12_000 420 ∷ leg call short 12_500 210 ∷ []

abbrev pub bull_put_legs : List OptionLeg
bull_put_legs = leg put short 12_500 420 ∷ leg put long 12_000 210 ∷ []

-- The structure that `build_structure` makes of them.
abbrev pub bull_call : OptionStructure
bull_call = record {
  structure_type = bull_call_debit_spread;
  quantity = 1;
  legs = bull_call_legs;
  underlying = none;
  net_premium_per_share = cents 210;
  max_loss = cents 21_000;
  max_profit = some (cents 29_000);
  break_evens = cents 12_210 ∷ [];
  greeks = record { delta = pos 0; gamma = pos 0; theta = pos 0; vega = pos 0 };
}

pub bull_call_built :
    build_structure unit bull_call_debit_spread bull_call_legs (pos 1) none ≡ ok bull_call
unfolding build_structure validate_common validate_legs terms_of premium_of aggregate_greeks
    add_leg_greeks add_shares vertical_terms debit_terms long_and_short ◌+ℤ◌ ◌-ℤ◌ ◌*ℤ◌ abs
bull_call_built = refl

abbrev pub candidate : RankedCandidate
candidate = record {
  structure_id = "30000000";
  trade_idea_id = "20000000";
  structure = bull_call;
  rank_score = pos 650_000;
  rank_components = [];
}

-- An equity of 100_000, with one trade of 200 open and 100 lost today.
abbrev pub context : RiskContext
context = record {
  paper_equity = cents 10_000_000;
  open_planned_loss = cents 20_000;
  underlying_open_risk = cents 20_000;
  daily_loss = cents 10_000;
  drawdown_percent = pos 0;
  concurrent_option_structures = 1;
  portfolio_delta = pos 100;
  portfolio_gamma = pos 0;
  portfolio_theta = negsuc 99;
  portfolio_vega = pos 0;
  broker_execution_allowed = true;
  duplicate_logical_order = false;
}

abbrev pub show : Decimal → String
show d = "d"

abbrev pub texts : Texts
texts = record { int_text = λ n. "n"; decimal_text = λ d. "d"; digest = λ s. s }

abbrev pub decision : RiskDecision
decision = evaluate unit show default_policy "40000000" (noon 0) candidate context

-- The intent that is created from that decision.
abbrev pub intent_of : Uuid → Datetime → OrderIntent
intent_of id at = record {
  order_intent_id = id;
  client_order_id =
      stable_client_order_id texts "40000000" (map intent_leg bull_call_legs) 1 (cents 210) "day"
        "P";
  risk_decision_id = "40000000";
  legs = map intent_leg bull_call_legs;
  quantity = 1;
  limit_price = cents 210;
  time_in_force = "day";
  execution_policy = "P";
  created_at = at;
}

pub made :
    (id : Uuid) (at : Datetime)
    → create_order_intent texts id at decision candidate (pos 1) none "P" none
      ≡ ok (intent_of id at)
unfolding create_order_intent evaluate checks_of greeks_within ◌+ℤ◌ ◌*ℤ◌ abs
made id at = refl

abbrev pub account : BrokerAccount
account = record {
  account_id = "account-1";
  account_number = "PA1";
  status = "ACTIVE";
  currency = "USD";
  equity = cents 10_000_000;
  cash = cents 10_000_000;
  buying_power = cents 20_000_000;
  options_buying_power = none;
  last_equity = cents 10_000_000;
  trading_blocked = false;
  account_blocked = false;
  trade_suspended_by_user = false;
  as_of = noon 0;
}

abbrev pub order : BrokerOrder
order = record {
  broker_order_id = "order-1";
  client_order_id = "ad-1";
  status = "new";
  asset_class = "us_option";
  symbol = none;
  side = none;
  order_type = "limit";
  order_class = "mleg";
  time_in_force = "day";
  quantity = some (cents 100);
  filled_quantity = cents 0;
  filled_average_price = none;
  limit_price = some (cents 250);
  submitted_at = none;
  created_at = noon 0;
  updated_at = none;
  legs = [];
}

-- Reconciled and connected.
abbrev pub known_status : BrokerSyncStatus
known_status = record {
  state = reconciled;
  last_reconciled_at = some (noon 10);
  last_stream_event_at = none;
  stream_connected = true;
  generation = 1;
  divergence_count = 0;
  failure_reason = none;
}
