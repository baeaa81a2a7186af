-- ===== src/Execution/Intents/Identity.antt =====
-- What an order intent of packages/execution/intents.py is tied to.
use alpha_desk.Base.{ℕ, ◌≡◌, ap, true, Option, String, map, arith, str_eq, str_eq_iff, str_eq_self}
use alpha_desk.Base.Integers.{ℤ, pos, eqb_ℤ}
use alpha_desk.Base.Results.{require-ok, require-three, ok-injective, ok}
use alpha_desk.Domain.Time.{Datetime}
use alpha_desk.Domain.Options.{Decimal}
use alpha_desk.Domain.Workflow.{
  Uuid, RankedCandidate, RiskDecision, approve, OrderIntent, Texts, validate_identifier,
}
use alpha_desk.Risk.Engine.{RiskPolicy, RiskContext, evaluate}
use alpha_desk.Risk.Engine.Approval.{MayTrade, evaluate_approves_iff}
use alpha_desk.Execution.Intents.{
  intent_leg, create_order_intent, is_approve, wrong_candidate, rejected_decision,
  quantity_mismatch,
}

-- What an intent that was created owes to its decision and its candidate.
pub record Follows (texts : Texts) (decision : RiskDecision) (candidate : RankedCandidate)
    (intent : OrderIntent) : Type 0 where
  pub same_structure : decision.structure_id ≡ candidate.structure_id
  pub approved : decision.decision ≡ approve
  pub decision_id : intent.risk_decision_id ≡ decision.risk_decision_id
  pub legs : intent.legs ≡ map intent_leg candidate.structure.legs
  pub quantity : intent.quantity ≡ candidate.structure.quantity
  pub identified : validate_identifier texts intent ≡ true

module _ (texts : Texts) (fresh : Uuid) (now : Datetime) where
  -- An intent is created only from an approved decision on the same structure, at the quantity that
  -- was evaluated. It carries the decision's identifier and the candidate's legs, bought where long
  -- and sold where short, and its client order id passes the intent's own validator.
  pub create_order_intent-Follows :
      (decision : RiskDecision) (candidate : RankedCandidate) (quantity : ℤ)
      (limit_price : Option Decimal) (policy : String) (created_at : Option Datetime)
      {intent : OrderIntent}
      → create_order_intent texts fresh now decision candidate quantity limit_price policy
          created_at
        ≡ ok intent
      → Follows texts decision candidate intent
  unfolding create_order_intent validate_identifier
  create_order_intent-Follows decision candidate quantity limit_price policy created_at h =
      let (same, after_same) =
        require-ok (str_eq decision.structure_id candidate.structure_id) wrong_candidate _ h in
      let (approved, after_approved) =
        require-ok (is_approve decision.decision) rejected_decision _ after_same in
      let (count, made) =
        require-ok (eqb_ℤ quantity (pos candidate.structure.quantity)) quantity_mismatch _
          after_approved in
      let shape = ok-injective _ _ made in
      record {
        same_structure = (str_eq_iff _ _).0 same;
        approved = ground arith;
        decision_id = rw (← shape);
        legs = rw (← shape);
        quantity = rw (← shape) (ground arith);
        identified = rw (← shape) (str_eq_self _);
      }

  create_order_intent-ok :
      (decision : RiskDecision) (candidate : RankedCandidate) (limit_price : Option Decimal)
      (policy : String) (created_at : Option Datetime)
      → decision.structure_id ≡ candidate.structure_id
      → decision.decision ≡ approve
      → (intent : OrderIntent) × (create_order_intent texts fresh now decision candidate
            (pos candidate.structure.quantity)
            limit_price
            policy
            created_at
          ≡ ok intent)
  unfolding create_order_intent
  create_order_intent-ok decision candidate limit_price policy created_at same approved =
      let count : eqb_ℤ (pos candidate.structure.quantity) (pos candidate.structure.quantity)
          ≡ true =
        ground arith in
      let id = (str_eq_iff decision.structure_id candidate.structure_id).1 same in
      require-three wrong_candidate rejected_decision quantity_mismatch _ id
        (ap is_approve approved) count

  -- An approved decision on the candidate's structure, at the candidate's quantity, always yields
  -- an intent.
  pub create_order_intent_returns :
      (decision : RiskDecision) (candidate : RankedCandidate) (limit_price : Option Decimal)
      (policy : String) (created_at : Option Datetime)
      → decision.structure_id ≡ candidate.structure_id
      → decision.decision ≡ approve
      → (intent : OrderIntent) × (create_order_intent texts fresh now decision candidate
            (pos candidate.structure.quantity)
            limit_price
            policy
            created_at
          ≡ ok intent)
        × Follows texts decision candidate intent
  create_order_intent_returns decision candidate limit_price policy created_at same approved =
      let (intent, made) =
        create_order_intent-ok decision candidate limit_price policy created_at same approved in
      (
        intent,
        made,
        create_order_intent-Follows decision candidate (pos candidate.structure.quantity)
            limit_price policy created_at made,
      )

  -- An intent that is created from a decision of `evaluate` on the same candidate meets every
  -- condition of the risk policy in the context of that evaluation.
  pub create_order_intent-MayTrade :
      (unit : ℕ) (show : Decimal → String) (risk : RiskPolicy) (id : Uuid) (evaluated_at : Datetime)
      (candidate : RankedCandidate) (context : RiskContext) (quantity : ℤ)
      (limit_price : Option Decimal) (policy : String) (created_at : Option Datetime)
      {intent : OrderIntent}
      → create_order_intent texts fresh now
          (evaluate unit show risk id evaluated_at candidate context)
          candidate
          quantity
          limit_price
          policy
          created_at
        ≡ ok intent
      → MayTrade unit risk candidate context
  create_order_intent-MayTrade unit show risk id evaluated_at candidate context quantity limit_price
        policy created_at h =
      let decision = evaluate unit show risk id evaluated_at candidate context in
      let follows =
        create_order_intent-Follows decision candidate quantity limit_price policy created_at h in
      (evaluate_approves_iff unit show risk id evaluated_at candidate context).0 follows.approved

-- Two intents that are created from one decision and candidate, at one quantity, price and policy,
-- have the same client order id, whatever their own identifiers and times.
pub create_order_intent_stable :
    (texts : Texts) (fresh fresh' : Uuid) (now now' : Datetime) (decision : RiskDecision)
    (candidate : RankedCandidate) (quantity : ℤ) (limit_price : Option Decimal) (policy : String)
    (created_at created_at' : Option Datetime) {intent intent' : OrderIntent}
    → create_order_intent texts fresh now decision candidate quantity limit_price policy created_at
      ≡ ok intent
    → create_order_intent texts fresh' now' decision candidate quantity limit_price policy
        created_at'
      ≡ ok intent'
    → intent.client_order_id ≡ intent'.client_order_id
unfolding create_order_intent
create_order_intent_stable texts fresh fresh' now now' decision candidate quantity limit_price
      policy created_at created_at' h h' =
    ground arith
