-- ===== src/Desk/Confirmation.antt =====
-- apps/api/routes/desk.py: `confirm_paper_order`, from a stored opportunity to the execution engine.
pub mod Backing
pub mod Outcome
use alpha_desk.Base.{
  ◌≡◌, ℕ, Bool, true, false, not, ◌&&◌, Option, none, some, String, List, length, leb, str_eq,
  if◌then◌else◌, find_first,
}
use alpha_desk.Base.Integers.{ltb_ℤ}
use alpha_desk.Base.Results.{Result, ok, err, ◌>>=◌, ◌>>◌, require}
use alpha_desk.Domain.Time.{Datetime, is_at_most}
use alpha_desk.Domain.Options.{Decimal, zero_decimal}
use alpha_desk.Domain.Workflow.{Uuid, RankedCandidate, RiskDecision, OrderIntent}
use alpha_desk.Domain.Broker.{BrokerAccount, BrokerOrder}
use alpha_desk.Domain.Guardian.{GuardianStatus}
use alpha_desk.Auth.Access.{HttpFailure, http_exception, raised, WorkspaceContext}
use alpha_desk.Broker.Projections.{BrokerProjectionStore}
use alpha_desk.Broker.Reconciliation
use alpha_desk.Broker.Reconciliation.{maximum_reconciliation_age}
use alpha_desk.Risk.Engine
use alpha_desk.Execution.Intents.{is_approve}
use alpha_desk.Execution.Engine.{
  IntentStore, Broker, Desk, ExecutionError, execution_blocked, duplicate_submission, key_error,
  adapter_error, not_uncertain,
}
use alpha_desk.Execution.Engine.Stores.{KeepsIntents}
use alpha_desk.Connected.Records.{ConnectedAnalysis, ConnectedOpportunity}
use alpha_desk.Connected.Opportunities.{context_of, default_risk_policy, unit}
use alpha_desk.Desk.{confirm}

abbrev pub conflict : String → HttpFailure
conflict detail = http_exception 409 detail

abbrev pub or_fail : {A : Type 0} → HttpFailure → Option A → Result HttpFailure A
or_fail failure none = err failure
or_fail failure (some a) = ok a

abbrev pub is_row : Uuid → Uuid → ConnectedOpportunity → Bool
is_row workspace opportunity row =
    str_eq row.workspace_id workspace && str_eq row.opportunity_id opportunity

-- Whether the stored opportunity may be confirmed, with its intent and candidate.
unfoldable pub reviewed :
    Datetime → String → ConnectedAnalysis → Result HttpFailure (OrderIntent × RankedCandidate)
reviewed now client_order_id opportunity = do
  require (str_eq opportunity.source "ALPACA_REAL")
      (conflict "Only real, risk-approved intents can be confirmed")
  intent ←
      or_fail (conflict "Only real, risk-approved intents can be confirmed")
        opportunity.order_intent
  require (not (is_at_most opportunity.expires_at now))
      (conflict "Order review expired; analyze the symbol again")
  require (str_eq client_order_id intent.client_order_id)
      (conflict "Confirmation does not match immutable order intent")
  candidate ← or_fail (raised "AssertionError") opportunity.candidate
  ok (intent, candidate)

-- The answer to the request, by what the execution engine returns or raises.
abbrev pub answered : Result ExecutionError BrokerOrder → Result HttpFailure BrokerOrder
answered (ok order) = ok order
answered (err (execution_blocked reason)) = err (conflict reason)
answered (err (duplicate_submission id)) = err (raised "DuplicateSubmission")
answered (err (key_error id)) = err (raised "KeyError")
answered (err (adapter_error e)) = err (raised e)
answered (err not_uncertain) = err (raised "ExecutionError")

-- `step` is the decimal 0.0001.
module _ (step : ℕ) (show : Decimal → String) {P : Type 0} (projections : BrokerProjectionStore P)
    (now : Datetime) (decision_id : Uuid) where
  -- The risk engine, once more.
  abbrev pub rerisk : P → RankedCandidate → BrokerAccount → RiskDecision
  rerisk p candidate account =
      Engine.evaluate (unit step) show (default_risk_policy step) decision_id now candidate (
        context_of step account (length (projections.list_positions p))
          (Reconciliation.evaluate projections maximum_reconciliation_age now p).allowed)

  -- Everything before the adapter: the intent that goes to the engine.
  unfoldable pub approved :
      {C : Type 0}
      → WorkspaceContext
      → Uuid
      → String
      → List ConnectedOpportunity
      → P
      → Option C
      → Result HttpFailure OrderIntent
  approved context opportunity_id client_order_id rows p secrets = do
    row ←
        or_fail (http_exception 404 "Opportunity not found")
          (find_first (is_row context.workspace_id opportunity_id) rows)
    review ← reviewed now client_order_id row.payload
    account ← or_fail (conflict "Broker account projection unavailable") (projections.get_account p)
    require (ltb_ℤ zero_decimal account.equity) (raised "ValidationError")
    require (is_approve (rerisk p review.1 account).decision)
        (conflict "Deterministic risk no longer approves this order")
    or_fail (conflict "Alpaca credential unavailable") secrets >>= λ credential. ok review.0

  module _ {S : Type 0} (o : IntentStore S) (keeps : KeepsIntents o) (broker : Broker) where
    -- From the engine on.
    abbrev pub engaged :
        GuardianStatus
        → P
        → Result HttpFailure OrderIntent
        → Desk S
        → Result HttpFailure BrokerOrder × Desk S
    engaged status p (err failure) d = (err failure, d)
    engaged status p (ok intent) d =
        let (result, d') =
          confirm o keeps broker projections maximum_reconciliation_age now status p intent d in
        (answered result, d')

    unfoldable pub confirm_paper_order :
        {C : Type 0}
        → WorkspaceContext
        → Uuid
        → String
        → List ConnectedOpportunity
        → GuardianStatus
        → P
        → Option C
        → Desk S
        → Result HttpFailure BrokerOrder × Desk S
    confirm_paper_order context opportunity_id client_order_id rows status p secrets d =
        engaged status p (approved context opportunity_id client_order_id rows p secrets) d
