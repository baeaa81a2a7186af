-- ===== src/Connected/Opportunities.antt =====
-- packages/connected/opportunities.py: `ConnectedOpportunityService.analyze`, from a symbol to an
-- order intent. What `_features` reads from the network, and the chain of options that the adapter
-- answers, are parameters.
pub mod Legs
pub mod Choice
pub mod Stages
pub mod Ranked
pub mod Failures
pub mod Safety
mod Examples
use alpha_desk.Base.{
  ℕ, ◌+◌, ◌-◌, ◌*◌, ◌/◌, zero, suc, Bool, true, false, not, ◌&&◌, ◌||◌, Option, none, some, String,
  List, [], ◌∷◌, ◌++◌, map, keep, length, ltb, ◌==◌, leb, str_eq, if◌then◌else◌, is_some,
}
use alpha_desk.Base.Integers.{ℤ, pos, pos_part, ◌-ℤ◌, ◌*ℤ◌, ltb_ℤ, leb_ℤ, abs, max}
use alpha_desk.Base.Results.{Result, ok, err, ◌>>=◌, ◌>>◌, require}
use alpha_desk.Base.Sorting.{order_by}
use alpha_desk.Base.Texts.{strip, upper, all_chars, has_char, is_empty}
use alpha_desk.Domain.Time.{Datetime, Date, micros_per_second}
use alpha_desk.Domain.Quotient.{Quotient, ◌/ℤ◌}
use alpha_desk.Domain.Options.{
  Decimal, zero_decimal, OptionType, call, put, LegSide, long, short, StructureType,
  bull_call_debit_spread, bear_put_debit_spread, OptionContract, OptionLeg, OptionStructure,
  LiquidityPolicy,
}
use alpha_desk.Domain.Workflow.{
  Uuid, Direction, bullish, bearish, CatalystFeatures, Signal, TradeIdea, NoTrade, RankedCandidate,
  RiskDecision, OrderIntent, Texts,
}
use alpha_desk.Domain.Broker.{BrokerAccount}
use alpha_desk.Options.Liquidity.{NaiveTime, evaluate_contract}
use alpha_desk.Options.Engine.{InvalidOptionStructure, build_structure, same_type}
use alpha_desk.Strategy.Scoring.{score_signal}
use alpha_desk.Strategy.Catalyst.{Proposal, trade, no_trade, evaluate_signal}
use alpha_desk.Strategy.Ranking.{rank_candidates}
use alpha_desk.Strategy.Volatility.{DivisionByZero}
use alpha_desk.Broker.Projections.{BrokerProjectionStore}
use alpha_desk.Broker.Reconciliation
use alpha_desk.Broker.Reconciliation.{maximum_reconciliation_age}
use alpha_desk.Risk.Engine
use alpha_desk.Risk.Engine.{RiskPolicy, RiskContext, default_policy}
use alpha_desk.Execution.Intents.{IntentError, create_order_intent, is_approve}
use alpha_desk.Connected.Records.{
  AnalysisError, invalid_symbol, index_error, validation_error, source_failed, naive_time,
  invalid_structure, division, refused_intent, raised, ConnectedAnalysis, ConnectedOpportunity,
  OptionChainQuery, Drawn, Market, Service,
}
use alpha_desk.Connected.Selection.{
  is_alnum, text_length, after_seconds, wanted_type, vertical_type, first, first_expiration,
  strike_leq, select, nearest_from, nearest, item_at, call_index, put_index, choose_legs,
  vertical_legs,
}

abbrev pub only : List RankedCandidate → Result AnalysisError RankedCandidate
only [] = err index_error
only (candidate ∷ _) = ok candidate

-- `max(account.last_equity - account.equity, 0)`
abbrev pub daily_loss : BrokerAccount → Decimal
daily_loss account = max (account.last_equity -ℤ account.equity) zero_decimal

-- `step` is the decimal 0.0001.
module _ (step : ℕ) where
  abbrev pub hundredth : ℕ
  hundredth = 100 * step

  abbrev pub unit : ℕ
  unit = 100 * hundredth

  -- `RiskPolicy()`: its defaults are in ten-thousandths.
  abbrev pub default_risk_policy : RiskPolicy
  default_risk_policy = record default_policy {
    max_planned_loss_per_trade_pct_equity =
        default_policy.max_planned_loss_per_trade_pct_equity *ℤ pos step;
    max_total_open_planned_loss_pct_equity =
        default_policy.max_total_open_planned_loss_pct_equity *ℤ pos step;
    max_underlying_risk_concentration_pct =
        default_policy.max_underlying_risk_concentration_pct *ℤ pos step;
    daily_loss_halt_pct_equity = default_policy.daily_loss_halt_pct_equity *ℤ pos step;
    portfolio_drawdown_halt_pct = default_policy.portfolio_drawdown_halt_pct *ℤ pos step;
    max_abs_portfolio_delta = default_policy.max_abs_portfolio_delta *ℤ pos step;
    max_abs_portfolio_gamma = default_policy.max_abs_portfolio_gamma *ℤ pos step;
    max_abs_portfolio_theta = default_policy.max_abs_portfolio_theta *ℤ pos step;
    max_abs_portfolio_vega = default_policy.max_abs_portfolio_vega *ℤ pos step;
  }

  abbrev pub policy_for : String → LiquidityPolicy
  policy_for symbol = record {
    supported_underlyings = symbol ∷ [];
    min_dte = 14;
    max_dte = 45;
    max_spread_ratio = pos (20 * hundredth);
    min_open_interest = some 25;
    min_quote_size = pos unit;
    max_strike_distance_ratio = pos (30 * hundredth);
    max_quote_age_seconds = 120;
    require_greeks = true;
  }

  abbrev pub query_for : Date → String → Decimal → OptionChainQuery
  query_for today symbol price = record {
    underlying_symbol = symbol;
    expiration_date_gte = today + 14;
    expiration_date_lte = today + 45;
    strike_price_gte = (price *ℤ pos 85) /ℤ pos 100;
    strike_price_lte = (price *ℤ pos 115) /ℤ pos 100;
  }

  abbrev pub signal_of : Drawn → String → CatalystFeatures → Datetime → Signal
  signal_of drawn symbol features now = record {
    signal_id = drawn.signal_id;
    symbol = symbol;
    strategy_family = "CATALYST_MOMENTUM";
    observed_at = now;
    features = features;
    score = score_signal hundredth features;
    source_versions =
        ("market", "alpaca-real-v1")
        ∷ ("news", "alpaca-real-v1")
        ∷ ("options", "alpaca-real-v1")
        ∷ [];
  }

  -- The contracts of the wanted type that the liquidity filter lets through.
  unfoldable pub eligible_of :
      OptionType
      → String
      → Decimal
      → Datetime
      → List OptionContract
      → Result NaiveTime (List OptionContract)
  eligible_of type symbol price now [] = ok []
  eligible_of type symbol price now (c ∷ cs) =
      let rest = eligible_of type symbol price now cs in
      if same_type c.option_type type
      then (do
        result ← evaluate_contract unit c price (policy_for symbol) now
        others ← rest
        ok (if result.eligible then c ∷ others else others))
      else rest

  -- The quotient of the drawdown, rounded down to the unit. The risk engine asks only whether it is
  -- below a bound in whole units, to which rounding down makes no difference.
  abbrev pub drawdown_percent : BrokerAccount → Decimal
  drawdown_percent account =
      pos (
        pos_part (daily_loss account)
        * (100 * unit)
        / pos_part (max account.last_equity (pos unit)))

  abbrev pub context_of : BrokerAccount → ℕ → Bool → RiskContext
  context_of account structures allowed = record {
    paper_equity = account.equity;
    open_planned_loss = pos 0;
    underlying_open_risk = pos 0;
    daily_loss = daily_loss account;
    drawdown_percent = drawdown_percent account;
    concurrent_option_structures = structures;
    portfolio_delta = pos 0;
    portfolio_gamma = pos 0;
    portfolio_theta = pos 0;
    portfolio_vega = pos 0;
    broker_execution_allowed = allowed;
    duplicate_logical_order = false;
  }

  module _ {S : Type 0} (service : Service S) where
    abbrev pub no_trade_result : Signal → NoTrade → ConnectedAnalysis
    no_trade_result signal refusal = record {
      opportunity_id = service.drawn.opportunity_id;
      scan_run_id = service.scan_run;
      symbol = signal.symbol;
      disposition = "NO_TRADE";
      source = "ALPACA_REAL";
      observed_at = signal.observed_at;
      expires_at = after_seconds 120 signal.observed_at;
      signal = signal;
      trade_idea = none;
      candidate = none;
      risk_decision = none;
      order_intent = none;
      reason_codes = refusal.reason_codes;
    }

    abbrev pub unavailable : Signal → TradeIdea → String → ConnectedAnalysis
    unavailable signal idea reason = record {
      opportunity_id = service.drawn.opportunity_id;
      scan_run_id = service.scan_run;
      symbol = signal.symbol;
      disposition = "UNAVAILABLE";
      source = "ALPACA_REAL";
      observed_at = signal.observed_at;
      expires_at = after_seconds 120 signal.observed_at;
      signal = signal;
      trade_idea = some idea;
      candidate = none;
      risk_decision = none;
      order_intent = none;
      reason_codes = reason ∷ [];
    }

    abbrev pub decided :
        Signal → TradeIdea → RankedCandidate → RiskDecision → Option OrderIntent → ConnectedAnalysis
    decided signal idea candidate risk intent = record {
      opportunity_id = service.drawn.opportunity_id;
      scan_run_id = service.scan_run;
      symbol = signal.symbol;
      disposition = if is_some intent then "TRADE" else "RISK_REJECTED";
      source = "ALPACA_REAL";
      observed_at = signal.observed_at;
      expires_at = after_seconds 120 signal.observed_at;
      signal = signal;
      trade_idea = some idea;
      candidate = some candidate;
      risk_decision = some risk;
      order_intent = intent;
      reason_codes = [];
    }

    -- The decision of the risk engine in the context of the account; the age is the gate's
    -- default.
    abbrev pub decision_for : RankedCandidate → Datetime → S → BrokerAccount → RiskDecision
    decision_for candidate now s account =
        Engine.evaluate unit service.show default_risk_policy service.drawn.risk_decision_id
          service.drawn.evaluated_at candidate
          (context_of account (length (service.projections.list_positions s))
            (Reconciliation.evaluate service.projections maximum_reconciliation_age now s).allowed)

    abbrev pub intent_for :
        RankedCandidate → RiskDecision → Result AnalysisError (Option OrderIntent)
    intent_for candidate risk =
        if is_approve risk.decision
        then (do
          intent ← raised refused_intent (
              create_order_intent service.texts service.drawn.order_intent_id
                service.drawn.evaluated_at risk candidate (pos 1) none "LIMIT_AT_CALCULATED_NET_V1"
                none)
          ok (some intent))
        else ok none

    -- From `account = await projections.get_account()` on.
    abbrev pub judge_account :
        Signal
        → TradeIdea
        → RankedCandidate
        → S
        → Option BrokerAccount
        → Result AnalysisError ConnectedAnalysis
    judge_account signal idea candidate s none =
        ok (unavailable signal idea "broker_account_unavailable")
    judge_account signal idea candidate s (some account) = do
      require (ltb_ℤ zero_decimal account.equity) validation_error
      let risk = decision_for candidate signal.observed_at s account
      intent ← intent_for candidate risk
      ok (decided signal idea candidate risk intent)

    -- From the choice of the legs to the candidate.
    unfoldable pub candidate_of :
        TradeIdea → Decimal → List OptionContract → Result AnalysisError RankedCandidate
    candidate_of idea price selected = do
      let type = wanted_type idea.direction
      pair ← choose_legs type price selected
      structure ←
          raised invalid_structure
            (build_structure unit (vertical_type type) (vertical_legs pair.0 pair.1) (pos 1) none)
      ranked ←
          raised division
            (rank_candidates step service.drawn.structure_id service.id_leq idea (structure ∷ []))
      only ranked

    abbrev pub judge_selected :
        Signal
        → TradeIdea
        → Decimal
        → S
        → List OptionContract
        → Result AnalysisError ConnectedAnalysis
    judge_selected signal idea price s selected =
        if ltb (length selected) 2
        then ok (unavailable signal idea "insufficient_vertical_legs")
        else (do
          candidate ← candidate_of idea price selected
          judge_account signal idea candidate s (service.projections.get_account s))

    abbrev pub judge_expiration :
        Signal
        → TradeIdea
        → Decimal
        → S
        → List OptionContract
        → Option Date
        → Result AnalysisError ConnectedAnalysis
    judge_expiration signal idea price s eligible none =
        ok (unavailable signal idea "no_eligible_option_chain")
    judge_expiration signal idea price s eligible (some date) =
        judge_selected signal idea price s (select date eligible)

    abbrev pub judge_proposal :
        Signal → Decimal → S → Proposal → Result AnalysisError ConnectedAnalysis
    judge_proposal signal price s (no_trade refusal) = ok (no_trade_result signal refusal)
    judge_proposal signal price s (trade idea) = do
      contracts ←
          raised source_failed
            (service.market.get_chain (query_for service.drawn.today signal.symbol price))
      eligible ← raised naive_time (
          eligible_of (wanted_type idea.direction) signal.symbol price signal.observed_at contracts)
      judge_expiration signal idea price s eligible (first_expiration eligible)

    abbrev pub proposal_for : Signal → Proposal
    proposal_for signal =
        evaluate_signal hundredth (pos (65 * unit)) (pos (12 * unit)) service.drawn.trade_idea_id
          signal.observed_at signal

    -- `analyze` up to the writing of its result.
    unfoldable pub judge : String → S → Result AnalysisError ConnectedAnalysis
    judge symbol s = do
      let normalized = upper (strip symbol)
      require (not (not (is_alnum normalized) || ltb 16 (text_length normalized))) invalid_symbol
      read ← raised source_failed (service.market.features normalized)
      let signal = signal_of service.drawn normalized read.0 read.2
      judge_proposal signal read.1 s (proposal_for signal)

    -- `_persist`
    abbrev pub row_of : ConnectedAnalysis → ConnectedOpportunity
    row_of result = record {
      opportunity_id = result.opportunity_id;
      workspace_id = service.workspace;
      scan_run_id = result.scan_run_id;
      symbol = result.symbol;
      state = result.disposition;
      source = "ALPACA_REAL";
      payload = result;
      observed_at = result.observed_at;
      expires_at = result.expires_at;
      created_at = service.drawn.stored_at;
    }

    abbrev pub persist :
        List ConnectedOpportunity
        → Result AnalysisError ConnectedAnalysis
        → Result AnalysisError ConnectedAnalysis × List ConnectedOpportunity
    persist rows (ok result) = (ok result, rows ++ row_of result ∷ [])
    persist rows (err e) = (err e, rows)

    -- Every result is written just before it is returned.
    unfoldable pub analyze :
        String
        → S
        → List ConnectedOpportunity
        → Result AnalysisError ConnectedAnalysis × List ConnectedOpportunity
    analyze symbol s rows = persist rows (judge symbol s)
