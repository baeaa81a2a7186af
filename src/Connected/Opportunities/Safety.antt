-- ===== src/Connected/Opportunities/Safety.antt =====
-- What stands behind an order intent of `ConnectedOpportunityService.analyze`
-- (packages/connected/opportunities.py).
use alpha_desk.Base.{ℕ, ◌*◌, ◌≤◌, ◌≡◌, some, List, map, All}
use alpha_desk.Base.Integers.{pos, neg, ◌≤ℤ◌, ◌<ℤ◌}
use alpha_desk.Base.Results.{ok}
use alpha_desk.Domain.Quotient.{PercentAtMost}
use alpha_desk.Domain.Options.{Decimal, OptionContract}
use alpha_desk.Domain.Workflow.{TradeIdea, RankedCandidate, OrderIntent}
use alpha_desk.Domain.Broker.{BrokerAccount}
use alpha_desk.Options.Engine.{expiration_payoff}
use alpha_desk.Options.Liquidity.Eligible.{IsLiquid}
use alpha_desk.Strategy.Catalyst.{Confirmed}
use alpha_desk.Broker.Reconciliation.{maximum_reconciliation_age}
use alpha_desk.Broker.Reconciliation.Gate.{Trusted}
use alpha_desk.Execution.Intents.{intent_leg}
use alpha_desk.Connected.Records.{Service, ConnectedAnalysis, OptionChainQuery, Market}
use alpha_desk.Connected.Selection.{vertical_legs}
use alpha_desk.Connected.Opportunities.{policy_for, unit, default_risk_policy, hundredth}

-- The bounds of the fields of a contract.
pub record ContractIsValid (c : OptionContract) : Type 0 where
  pub strike_positive : pos 0 <ℤ c.strike
  pub multiplier_positive : 1 ≤ c.multiplier

-- Every contract that the adapter answers is valid.
abbrev pub AnswersAreValid : Market → Type 0
AnswersAreValid market =
    (query : OptionChainQuery) (contracts : List OptionContract)
    → market.get_chain query ≡ ok contracts
    → All ContractIsValid contracts

module _ (step : ℕ) {S : Type 0} (service : Service S) where
  -- What stands behind an order intent that a result has.
  pub record IsBacked (s : S) (result : ConnectedAnalysis) (intent : OrderIntent) : Type 0 where
    pub idea : TradeIdea
    pub candidate : RankedCandidate
    pub bought : OptionContract
    pub sold : OptionContract
    pub account : BrokerAccount
    pub price : Decimal
    pub disposition : result.disposition ≡ "TRADE"
    pub idea_is : result.trade_idea ≡ some idea
    pub candidate_is : result.candidate ≡ some candidate
    pub confirmed :
        Confirmed (hundredth step) (pos (65 * unit step)) (pos (12 * unit step)) result.signal
    pub bought_liquid :
        IsLiquid
          (unit step)
          bought
          price
          (policy_for step result.signal.symbol)
          result.signal.observed_at
    pub sold_liquid :
        IsLiquid
          (unit step)
          sold
          price
          (policy_for step result.signal.symbol)
          result.signal.observed_at
    pub legs : intent.legs ≡ map intent_leg (vertical_legs bought sold)
    pub account_known : service.projections.get_account s ≡ some account
    pub trusted :
        Trusted maximum_reconciliation_age result.signal.observed_at
          (service.projections.get_status s)
          (service.projections.get_account s)
    pub bounded :
        (at : Decimal)
        → pos 0 ≤ℤ at
        → (payoff : Decimal) × (expiration_payoff candidate.structure at ≡ ok payoff)
          × PercentAtMost
              (unit step)
              (default_risk_policy step).max_planned_loss_per_trade_pct_equity
              (neg payoff)
              account.equity
