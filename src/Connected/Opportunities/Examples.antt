-- ===== src/Connected/Opportunities/Examples.antt =====
-- A run of packages/connected/opportunities.py: a signal for NVDA becomes a call spread.
use alpha_desk.Base.{◌≡◌, refl, true, none, some, List, [], ◌∷◌}
use alpha_desk.Base.Integers.{ℤ, pos}
use alpha_desk.Base.Results.{ok, err}
use alpha_desk.Base.Texts.{upper, strip}
use alpha_desk.Domain.Options.{OptionContract, call, long}
use alpha_desk.Domain.Workflow.{CatalystFeatures}
use alpha_desk.Strategy.Catalyst
use alpha_desk.Broker.Projections.{Memory, memory_projections}
use alpha_desk.Broker.Reconciliation
use alpha_desk.Risk.Engine
use alpha_desk.Connected.Records.{Market, Drawn, Service, invalid_symbol}
use alpha_desk.Connected.Opportunities.{judge, analyze}
use alpha_desk.Samples.{leg, cents, noon, account, known_status, show, texts}

abbrev features : CatalystFeatures
features = record {
  catalyst_confidence = pos 9_100;
  sentiment = pos 7_600;
  relative_volume = pos 32_000;
  price_momentum = pos 6_800;
  gap_percent = pos 42_000;
  market_confirmation = pos 3_000;
  sector_confirmation = pos 5_200;
  liquidity_score = pos 7_500;
}

abbrev at_strike : ℤ → OptionContract
at_strike strike = record (leg call long 12_000 210).contract { strike = strike }

-- Calls at 115, 120 and 125.
abbrev chain : List OptionContract
chain = at_strike (cents 12_500) ∷ at_strike (cents 11_500) ∷ at_strike (cents 12_000) ∷ []

abbrev market : Market
market = record {
  features = λ symbol. ok (features, cents 12_100, noon 20);
  get_chain = λ query. ok chain;
}

abbrev drawn : Drawn
drawn = record {
  signal_id = "signal";
  trade_idea_id = "idea";
  opportunity_id = "opportunity";
  structure_id = λ n. "structure";
  risk_decision_id = "decision";
  order_intent_id = "intent";
  evaluated_at = noon 21;
  stored_at = noon 22;
  today = 739_860;
}

abbrev service : Service Memory
service = record {
  projections = memory_projections;
  market = market;
  workspace = "desk";
  scan_run = none;
  drawn = drawn;
  texts = texts;
  show = show;
  id_leq = λ a b. true;
}

abbrev known : Memory
known = record { status = known_status; account = some account; positions = []; orders = [] }

no_symbol : (analyze 1 service "NV DA" known []).0 ≡ err invalid_symbol
unfolding analyze judge upper strip
no_symbol = refl
