-- ===== src/Execution/Intents.antt =====
-- packages/execution/intents.py: `create_order_intent`.
pub mod Identity
mod Examples
use alpha_desk.Base.{
  ℕ, Bool, true, false, Option, none, some, String, List, map, str_eq, if◌then◌else◌,
}
use alpha_desk.Base.Integers.{ℤ, pos, pos_part, eqb_ℤ}
use alpha_desk.Base.Results.{Result, ok, err, ◌>>=◌, ◌>>◌, require}
use alpha_desk.Domain.Time.{Datetime}
use alpha_desk.Domain.Options.{Decimal, LegSide, long, short, OptionLeg}
use alpha_desk.Domain.Workflow.{
  Uuid, RankedCandidate, RiskDecision, RiskDecisionValue, approve, reject, OrderSide, buy, sell,
  IntentLeg, OrderIntent, Texts, stable_client_order_id,
}

-- The messages of the `ValueError`s.
pub data IntentError : Type 0 where
  wrong_candidate rejected_decision quantity_mismatch : IntentError

abbrev pub is_approve : RiskDecisionValue → Bool
is_approve approve = true
is_approve reject = false

abbrev pub order_side : LegSide → OrderSide
order_side long = buy
order_side short = sell

pub intent_leg : OptionLeg → IntentLeg
intent_leg leg = record {
  symbol = leg.contract.symbol;
  side = order_side leg.side;
  ratio = leg.ratio;
}

abbrev pub or_else {ℓ} : {A : Type ℓ} → Option A → A → A
or_else none d = d
or_else (some a) _ = a

-- The fresh identifier and the current time are arguments.
unfoldable pub create_order_intent :
    Texts
    → Uuid
    → Datetime
    → RiskDecision
    → RankedCandidate
    → ℤ
    → Option Decimal
    → String
    → Option Datetime
    → Result IntentError OrderIntent
create_order_intent texts fresh now decision candidate quantity limit_price policy created_at = do
  require (str_eq decision.structure_id candidate.structure_id) wrong_candidate
  require (is_approve decision.decision) rejected_decision
  require (eqb_ℤ quantity (pos candidate.structure.quantity)) quantity_mismatch
  let price = or_else limit_price candidate.structure.net_premium_per_share
  let legs = map intent_leg candidate.structure.legs
  ok (record {
    order_intent_id = fresh;
    client_order_id =
        stable_client_order_id texts decision.risk_decision_id legs (pos_part quantity) price "day"
          policy;
    risk_decision_id = decision.risk_decision_id;
    legs = legs;
    quantity = pos_part quantity;
    limit_price = price;
    time_in_force = "day";
    execution_policy = policy;
    created_at = or_else created_at now;
  })
