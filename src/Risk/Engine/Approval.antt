-- ===== src/Risk/Engine/Approval.antt =====
-- When `RiskEngine.evaluate` (packages/risk/engine.py) approves.
use alpha_desk.Base.{ℕ, ◌<◌, ◌≡◌, ◌↔◌, true, false, String, arith}
use alpha_desk.Base.Integers.{ℤ, ◌+ℤ◌, ◌≤ℤ◌, ◌<ℤ◌, leb_ℤ, abs, neg}
use alpha_desk.Domain.Time.{Datetime}
use alpha_desk.Domain.Options.{Decimal, Greeks}
use alpha_desk.Domain.Quotient.{PercentAtMost, PercentBelow}
use alpha_desk.Domain.Workflow.{Uuid, RankedCandidate, approve}
use alpha_desk.Risk.Engine.{RiskPolicy, RiskContext, greeks_within, checks_of, evaluate}

-- Between the bound and its opposite.
abbrev pub Within : Decimal → Decimal → Type 0
Within bound x = (x ≤ℤ bound) × (neg bound ≤ℤ x)

pub abs-Within : (x bound : ℤ) → (leb_ℤ (abs x) bound ≡ true) ↔ Within bound x
unfolding abs neg
abs-Within x bound = (λ h. (ground arith, ground arith), λ (h, k). ground arith)

-- The portfolio's Greeks after the trade.
pub record GreeksWithin (policy : RiskPolicy) (context : RiskContext) (impact : Greeks)
    : Type 0 where
  pub delta : Within policy.max_abs_portfolio_delta (context.portfolio_delta +ℤ impact.delta)
  pub gamma : Within policy.max_abs_portfolio_gamma (context.portfolio_gamma +ℤ impact.gamma)
  pub theta : Within policy.max_abs_portfolio_theta (context.portfolio_theta +ℤ impact.theta)
  pub vega : Within policy.max_abs_portfolio_vega (context.portfolio_vega +ℤ impact.vega)

greeks_within_iff :
    (policy : RiskPolicy) (context : RiskContext) (impact : Greeks)
    → (greeks_within policy context impact ≡ true) ↔ GreeksWithin policy context impact
unfolding greeks_within
greeks_within_iff policy context impact =
    let d = abs-Within (context.portfolio_delta +ℤ impact.delta) policy.max_abs_portfolio_delta in
    let g = abs-Within (context.portfolio_gamma +ℤ impact.gamma) policy.max_abs_portfolio_gamma in
    let t = abs-Within (context.portfolio_theta +ℤ impact.theta) policy.max_abs_portfolio_theta in
    let v = abs-Within (context.portfolio_vega +ℤ impact.vega) policy.max_abs_portfolio_vega in
    (
      λ h. record {
        delta = d.0 (ground arith);
        gamma = g.0 (ground arith);
        theta = t.0 (ground arith);
        vega = v.0 (ground arith);
      },
      λ h.
          let delta_ok = d.1 h.delta in
          let gamma_ok = g.1 h.gamma in
          let theta_ok = t.1 h.theta in let vega_ok = v.1 h.vega in ground arith,
    )

-- What an approval requires, without division: the percentages of the equity are multiplied out.
pub record MayTrade (unit : ℕ) (policy : RiskPolicy) (candidate : RankedCandidate)
    (context : RiskContext) : Type 0 where
  pub broker_known : context.broker_execution_allowed ≡ true
  pub not_duplicate : context.duplicate_logical_order ≡ false
  pub trade_loss :
      PercentAtMost unit policy.max_planned_loss_per_trade_pct_equity candidate.structure.max_loss
        context.paper_equity
  pub open_loss :
      PercentAtMost unit policy.max_total_open_planned_loss_pct_equity
        (context.open_planned_loss +ℤ candidate.structure.max_loss)
        context.paper_equity
  pub concentration :
      PercentAtMost unit policy.max_underlying_risk_concentration_pct
        (context.underlying_open_risk +ℤ candidate.structure.max_loss)
        context.paper_equity
  pub daily_loss :
      PercentBelow unit policy.daily_loss_halt_pct_equity context.daily_loss context.paper_equity
  pub drawdown : context.drawdown_percent <ℤ policy.portfolio_drawdown_halt_pct
  pub positions : context.concurrent_option_structures < policy.max_concurrent_option_structures
  pub greeks : GreeksWithin policy context candidate.structure.greeks

-- `evaluate` approves a candidate exactly when all of these hold: execution at the broker is
-- allowed, the order is no duplicate, the loss of the trade, the open loss and the underlying's risk
-- after it are within their percentages of the equity, the day's loss and the drawdown are below
-- their halts, there is room for one more structure, and the Greeks after the trade are within
-- their caps.
pub evaluate_approves_iff :
    (unit : ℕ) (show : Decimal → String) (policy : RiskPolicy) (id : Uuid) (now : Datetime)
    (candidate : RankedCandidate) (context : RiskContext)
    → ((evaluate unit show policy id now candidate context).decision ≡ approve)
      ↔ MayTrade unit policy candidate context
unfolding evaluate checks_of
evaluate_approves_iff unit show policy id now candidate context =
    let g = greeks_within_iff policy context candidate.structure.greeks in
    (
      λ h. record {
        broker_known = ground arith;
        not_duplicate = ground arith;
        trade_loss = ground arith;
        open_loss = ground arith;
        concentration = ground arith;
        daily_loss = ground arith;
        drawdown = ground arith;
        positions = ground arith;
        greeks = g.0 (ground arith);
      },
      λ h. let greeks_ok = g.1 h.greeks in ground arith,
    )
