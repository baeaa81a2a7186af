-- ===== src/Risk/Engine/Limits.antt =====
-- What the approvals of packages/risk/engine.py keep true of a portfolio, however many trades are
-- entered one after another.
use alpha_desk.Base.{ℕ, suc, ◌≤◌, ◌≡◌, Bool, String}
use alpha_desk.Base.Integers.{◌+ℤ◌}
use alpha_desk.Domain.Time.{Datetime}
use alpha_desk.Domain.Options.{Decimal}
use alpha_desk.Domain.Quotient.{PercentAtMost}
use alpha_desk.Domain.Workflow.{Uuid, RankedCandidate, approve}
use alpha_desk.Risk.Engine.{RiskPolicy, RiskContext, evaluate}
use alpha_desk.Risk.Engine.Approval.{Within}

-- The context after a candidate has been entered: its loss, its place and its Greeks are added.
abbrev pub entered : RankedCandidate → RiskContext → RiskContext
entered candidate context =
    let structure = candidate.structure in
    record context {
      open_planned_loss = context.open_planned_loss +ℤ structure.max_loss;
      underlying_open_risk = context.underlying_open_risk +ℤ structure.max_loss;
      concurrent_option_structures = suc context.concurrent_option_structures;
      portfolio_delta = context.portfolio_delta +ℤ structure.greeks.delta;
      portfolio_gamma = context.portfolio_gamma +ℤ structure.greeks.gamma;
      portfolio_theta = context.portfolio_theta +ℤ structure.greeks.theta;
      portfolio_vega = context.portfolio_vega +ℤ structure.greeks.vega;
    }

-- Every limit of the policy that a trade can move.
pub record WithinLimits (unit : ℕ) (policy : RiskPolicy) (context : RiskContext) : Type 0 where
  pub open_loss :
      PercentAtMost unit policy.max_total_open_planned_loss_pct_equity context.open_planned_loss
        context.paper_equity
  pub concentration :
      PercentAtMost unit policy.max_underlying_risk_concentration_pct context.underlying_open_risk
        context.paper_equity
  pub positions : context.concurrent_option_structures ≤ policy.max_concurrent_option_structures
  pub delta : Within policy.max_abs_portfolio_delta context.portfolio_delta
  pub gamma : Within policy.max_abs_portfolio_gamma context.portfolio_gamma
  pub theta : Within policy.max_abs_portfolio_theta context.portfolio_theta
  pub vega : Within policy.max_abs_portfolio_vega context.portfolio_vega

module _ (unit : ℕ) (show : Decimal → String) (policy : RiskPolicy) where
  -- Trades on one underlying and one equity, each entered on an approval; what the trades do not
  -- move may change between them.
  pub data Trades (start : RiskContext) : RiskContext → Type 0 where
    none_yet : Trades start start
    enter :
        {context : RiskContext} (id : Uuid) (now : Datetime) (candidate : RankedCandidate)
        → Trades start context
        → (evaluate unit show policy id now candidate context).decision ≡ approve
        → Trades start (entered candidate context)
    observe :
        {context : RiskContext} (daily drawdown : Decimal) (allowed duplicate : Bool)
        → Trades start context
        → Trades start (record context {
          daily_loss = daily;
          drawdown_percent = drawdown;
          broker_execution_allowed = allowed;
          duplicate_logical_order = duplicate;
        })
