-- ===== src/Risk/Engine/Examples.antt =====
-- Runs of packages/risk/engine.py, and its theorems at the bull call spread of the replay.
use alpha_desk.Base.{◌≡◌, ◌↔◌, refl, false, arith}
use alpha_desk.Base.Integers.{pos, ◌+ℤ◌, ◌*ℤ◌, abs}
use alpha_desk.Domain.Workflow.{approve, reject}
use alpha_desk.Risk.Engine.{default_policy, RiskContext, greeks_within, checks_of, evaluate}
use alpha_desk.Risk.Engine.Approval.{MayTrade, evaluate_approves_iff}
use alpha_desk.Risk.Engine.Monotone.{NoRiskier, evaluate-NoRiskier}
use alpha_desk.Samples.{unit, noon, show, candidate, context}

approved : (evaluate unit show default_policy "d" (noon 0) candidate context).decision ≡ approve
unfolding evaluate checks_of greeks_within ◌+ℤ◌ ◌*ℤ◌ abs
approved = refl

-- Three such spreads and a broker that is not known.
vetoed :
    (evaluate unit show default_policy "d"
      (noon 0)
      candidate
      (record context { broker_execution_allowed = false })).decision
    ≡ reject
unfolding evaluate checks_of greeks_within ◌+ℤ◌ ◌*ℤ◌ abs
vetoed = refl

evaluate_approves_iff_example :
    ((evaluate unit show default_policy "d" (noon 0) candidate context).decision ≡ approve)
    ↔ MayTrade unit default_policy candidate context
evaluate_approves_iff_example =
    evaluate_approves_iff unit show default_policy "d" (noon 0) candidate context

abbrev calmer : RiskContext
calmer = record context { daily_loss = pos 0; open_planned_loss = pos 0 }

calmer-NoRiskier : NoRiskier candidate context candidate calmer
calmer-NoRiskier = record {
  equity = refl;
  loss = omega arith;
  open_loss = omega arith;
  underlying = omega arith;
  daily = omega arith;
  drawdown = omega arith;
  positions = omega arith;
  delta = refl;
  gamma = refl;
  theta = refl;
  vega = refl;
  greeks = refl;
  allowed = λ h. h;
  duplicate = λ h. h;
}

evaluate-NoRiskier_example :
    (evaluate unit show default_policy "d" (noon 0) candidate calmer).decision ≡ approve
evaluate-NoRiskier_example =
    evaluate-NoRiskier unit show default_policy "d" (noon 0) candidate candidate context calmer
      calmer-NoRiskier approved
