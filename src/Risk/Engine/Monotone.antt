-- ===== src/Risk/Engine/Monotone.antt =====
-- Less risk never turns an approval of packages/risk/engine.py into a rejection.
use alpha_desk.Base.{ℕ, ◌≤◌, ◌≡◌, true, false, String, arith}
use alpha_desk.Base.Integers.{ℤ, pos, ◌*ℤ◌, ◌≤ℤ◌, int_laws, *ℤ_mono}
use alpha_desk.Domain.Time.{Datetime}
use alpha_desk.Domain.Options.{Decimal}
use alpha_desk.Domain.Quotient.{PercentAtMost, PercentBelow}
use alpha_desk.Domain.Workflow.{Uuid, RankedCandidate, approve}
use alpha_desk.Risk.Engine.{RiskPolicy, RiskContext, evaluate}
use alpha_desk.Risk.Engine.Approval.{MayTrade, evaluate_approves_iff}

-- The second candidate and context carry no more risk than the first: the same equity and Greeks,
-- no more loss, open risk, drawdown or structures, and no flag that is worse.
pub record NoRiskier (candidate : RankedCandidate) (context : RiskContext)
    (candidate' : RankedCandidate) (context' : RiskContext) : Type 0 where
  pub equity : context'.paper_equity ≡ context.paper_equity
  pub loss : candidate'.structure.max_loss ≤ℤ candidate.structure.max_loss
  pub open_loss : context'.open_planned_loss ≤ℤ context.open_planned_loss
  pub underlying : context'.underlying_open_risk ≤ℤ context.underlying_open_risk
  pub daily : context'.daily_loss ≤ℤ context.daily_loss
  pub drawdown : context'.drawdown_percent ≤ℤ context.drawdown_percent
  pub positions : context'.concurrent_option_structures ≤ context.concurrent_option_structures
  pub delta : context'.portfolio_delta ≡ context.portfolio_delta
  pub gamma : context'.portfolio_gamma ≡ context.portfolio_gamma
  pub theta : context'.portfolio_theta ≡ context.portfolio_theta
  pub vega : context'.portfolio_vega ≡ context.portfolio_vega
  pub greeks : candidate'.structure.greeks ≡ candidate.structure.greeks
  pub allowed : context.broker_execution_allowed ≡ true → context'.broker_execution_allowed ≡ true
  pub duplicate : context.duplicate_logical_order ≡ false → context'.duplicate_logical_order ≡ false

pub percent_mono :
    (unit : ℕ) (a b : ℤ) → a ≤ℤ b → a *ℤ pos 100 *ℤ pos unit ≤ℤ b *ℤ pos 100 *ℤ pos unit
percent_mono unit a b h = *ℤ_mono (a *ℤ pos 100) (b *ℤ pos 100) unit (*ℤ_mono a b 100 h)

at_most_mono :
    (unit : ℕ) (d a b e e' : ℤ)
    → e' ≡ e
    → a ≤ℤ b
    → PercentAtMost unit d b e
    → PercentAtMost unit d a e'
at_most_mono unit d a b e e' same h k = rw same (omega (arith, percent_mono unit a b h, k))

below_mono :
    (unit : ℕ) (d a b e e' : ℤ)
    → e' ≡ e
    → a ≤ℤ b
    → PercentBelow unit d b e
    → PercentBelow unit d a e'
below_mono unit d a b e e' same h k = rw same (omega (arith, percent_mono unit a b h, k))

MayTrade-NoRiskier :
    (unit : ℕ) (policy : RiskPolicy) (candidate candidate' : RankedCandidate)
    (context context' : RiskContext)
    → NoRiskier candidate context candidate' context'
    → MayTrade unit policy candidate context
    → MayTrade unit policy candidate' context'
MayTrade-NoRiskier unit policy candidate candidate' context context' n m = record {
  broker_known = n.allowed m.broker_known;
  not_duplicate = n.duplicate m.not_duplicate;
  trade_loss = at_most_mono unit _ _ _ _ _ n.equity n.loss m.trade_loss;
  open_loss = at_most_mono unit _ _ _ _ _ n.equity (omega int_laws) m.open_loss;
  concentration = at_most_mono unit _ _ _ _ _ n.equity (omega int_laws) m.concentration;
  daily_loss = below_mono unit _ _ _ _ _ n.equity n.daily m.daily_loss;
  drawdown = omega (arith, n.drawdown, m.drawdown);
  positions = omega (arith, n.positions, m.positions);
  greeks = record {
    delta = rw (n.delta, n.greeks) m.greeks.delta;
    gamma = rw (n.gamma, n.greeks) m.greeks.gamma;
    theta = rw (n.theta, n.greeks) m.greeks.theta;
    vega = rw (n.vega, n.greeks) m.greeks.vega;
  };
}

-- If `evaluate` approves a candidate, it approves every candidate that carries no more risk in a
-- context of the same equity and Greeks that is no riskier.
pub evaluate-NoRiskier :
    (unit : ℕ) (show : Decimal → String) (policy : RiskPolicy) (id : Uuid) (now : Datetime)
    (candidate candidate' : RankedCandidate) (context context' : RiskContext)
    → NoRiskier candidate context candidate' context'
    → (evaluate unit show policy id now candidate context).decision ≡ approve
    → (evaluate unit show policy id now candidate' context').decision ≡ approve
evaluate-NoRiskier unit show policy id now candidate candidate' context context' n h =
    (evaluate_approves_iff unit show policy id now candidate' context').1 (
      MayTrade-NoRiskier unit policy candidate candidate' context context' n
        ((evaluate_approves_iff unit show policy id now candidate context).0 h))
