-- ===== src/Risk/Engine.antt =====
-- packages/risk/engine.py: the policy, the context of an evaluation, and the nine checks of
-- `RiskEngine.evaluate`.
pub mod Approval
pub mod Monotone
pub mod Limits
mod Examples
use alpha_desk.Base.{
  ℕ, ◌≡◌, Bool, true, false, not, ◌&&◌, String, List, [], ◌∷◌, if◌then◌else◌, ltb, all, ◌≤◌,
}
use alpha_desk.Base.Integers.{ℤ, pos, ◌+ℤ◌, ◌≤ℤ◌, ◌<ℤ◌, ltb_ℤ, leb_ℤ, abs}
use alpha_desk.Domain.Time.{Datetime}
use alpha_desk.Domain.Options.{Decimal, Greeks}
use alpha_desk.Domain.Quotient.{◌/ℤ◌, scaled_by, quotient_leb, quotient_ltb}
use alpha_desk.Domain.Workflow.{
  Uuid, RankedCandidate, RiskCheck, RiskDecision, RiskDecisionValue, approve, reject, ◌⧺◌,
}

pub record RiskPolicy : Type 0 where
  pub version : String
  pub max_planned_loss_per_trade_pct_equity : Decimal
  pub max_total_open_planned_loss_pct_equity : Decimal
  pub max_underlying_risk_concentration_pct : Decimal
  pub daily_loss_halt_pct_equity : Decimal
  pub portfolio_drawdown_halt_pct : Decimal
  pub max_concurrent_option_structures : ℕ
  pub max_abs_portfolio_delta : Decimal
  pub max_abs_portfolio_gamma : Decimal
  pub max_abs_portfolio_theta : Decimal
  pub max_abs_portfolio_vega : Decimal

-- The defaults of the policy, in ten-thousandths.
abbrev pub default_policy : RiskPolicy
default_policy = record {
  version = "1";
  max_planned_loss_per_trade_pct_equity = pos 5_000;
  max_total_open_planned_loss_pct_equity = pos 40_000;
  max_underlying_risk_concentration_pct = pos 100_000;
  daily_loss_halt_pct_equity = pos 20_000;
  portfolio_drawdown_halt_pct = pos 100_000;
  max_concurrent_option_structures = 8;
  max_abs_portfolio_delta = pos 50_000_000;
  max_abs_portfolio_gamma = pos 10_000_000;
  max_abs_portfolio_theta = pos 10_000_000;
  max_abs_portfolio_vega = pos 50_000_000;
}

pub record RiskContext : Type 0 where
  pub paper_equity : Decimal
  pub open_planned_loss : Decimal
  pub underlying_open_risk : Decimal
  pub daily_loss : Decimal
  pub drawdown_percent : Decimal
  pub concurrent_option_structures : ℕ
  pub portfolio_delta : Decimal
  pub portfolio_gamma : Decimal
  pub portfolio_theta : Decimal
  pub portfolio_vega : Decimal
  pub broker_execution_allowed : Bool
  pub duplicate_logical_order : Bool

-- The bounds of the fields of a context.
pub record ContextIsValid (c : RiskContext) : Type 0 where
  pub equity_positive : pos 0 <ℤ c.paper_equity
  pub open_nonneg : pos 0 ≤ℤ c.open_planned_loss
  pub underlying_nonneg : pos 0 ≤ℤ c.underlying_open_risk
  pub daily_nonneg : pos 0 ≤ℤ c.daily_loss
  pub drawdown_nonneg : pos 0 ≤ℤ c.drawdown_percent

abbrev check : String → Bool → String → RiskCheck
check name passed detail = record { name = name; passed = passed; detail = detail }

-- The test of the check "greeks".
unfoldable pub greeks_within : RiskPolicy → RiskContext → Greeks → Bool
greeks_within policy context impact =
    leb_ℤ (abs (context.portfolio_delta +ℤ impact.delta)) policy.max_abs_portfolio_delta
    && leb_ℤ (abs (context.portfolio_gamma +ℤ impact.gamma)) policy.max_abs_portfolio_gamma
    && leb_ℤ (abs (context.portfolio_theta +ℤ impact.theta)) policy.max_abs_portfolio_theta
    && leb_ℤ (abs (context.portfolio_vega +ℤ impact.vega)) policy.max_abs_portfolio_vega

-- `unit` is the decimal 1; `show` is Python's text of a decimal.
module _ (unit : ℕ) (show : Decimal → String) (policy : RiskPolicy) where
  unfoldable pub checks_of : RankedCandidate → RiskContext → List RiskCheck
  checks_of candidate context =
      let loss = candidate.structure.max_loss in
      let equity = context.paper_equity in
      check "broker_state" context.broker_execution_allowed
        "Broker state must be fresh, reconciled, connected, and unblocked."
      ∷ check "duplicate_logical_order" (not context.duplicate_logical_order)
          "An immutable logical order may be submitted only once."
      ∷ check "per_trade_loss"
          (quotient_leb unit (scaled_by (loss /ℤ equity) 100)
            policy.max_planned_loss_per_trade_pct_equity)
          ("Planned loss " ⧺ show loss ⧺ " against paper equity " ⧺ show equity ⧺ ".")
      ∷ check "total_open_loss"
          (quotient_leb unit (scaled_by ((context.open_planned_loss +ℤ loss) /ℤ equity) 100)
            policy.max_total_open_planned_loss_pct_equity)
          "Aggregate planned loss after entry."
      ∷ check "underlying_concentration"
          (quotient_leb unit (scaled_by ((context.underlying_open_risk +ℤ loss) /ℤ equity) 100)
            policy.max_underlying_risk_concentration_pct)
          "Underlying risk after entry."
      ∷ check "daily_loss_halt"
          (quotient_ltb unit (scaled_by (context.daily_loss /ℤ equity) 100)
            policy.daily_loss_halt_pct_equity)
          "Daily loss must remain below the hard halt."
      ∷ check "drawdown_halt" (ltb_ℤ context.drawdown_percent policy.portfolio_drawdown_halt_pct)
          "Portfolio drawdown must remain below the hard halt."
      ∷ check "position_count"
          (ltb context.concurrent_option_structures policy.max_concurrent_option_structures)
          "Concurrent option structure cap."
      ∷ check "greeks" (greeks_within policy context candidate.structure.greeks)
          "Post-trade portfolio Greeks must remain within caps."
      ∷ []

  -- The decision's own identifier and its time are arguments.
  unfoldable pub evaluate : Uuid → Datetime → RankedCandidate → RiskContext → RiskDecision
  evaluate decision_id now candidate context =
      let checks = checks_of candidate context in
      let loss = candidate.structure.max_loss in
      record {
        risk_decision_id = decision_id;
        structure_id = candidate.structure_id;
        decision = if all (λ c. c.passed) checks then approve else reject;
        checks = checks;
        risk_budget_used = loss /ℤ context.paper_equity;
        calculated_max_loss = loss;
        created_at = now;
      }
