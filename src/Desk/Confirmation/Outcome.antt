-- ===== src/Desk/Confirmation/Outcome.antt =====
-- What `confirm_paper_order` (apps/api/routes/desk.py) returns an order for, and what it leaves where it
-- refuses.
use alpha_desk.Base.{◌≡◌, refl, ap, ℕ, true, Option, String, List}
use alpha_desk.Base.Results.{Result, ok, err, ok-injective}
use alpha_desk.Domain.Time.{Datetime}
use alpha_desk.Domain.Options.{Decimal}
use alpha_desk.Domain.Workflow.{Uuid, OrderIntent}
use alpha_desk.Domain.Broker.{BrokerOrder}
use alpha_desk.Domain.Guardian.{GuardianStatus}
use alpha_desk.Guardian.Gate.{execution_allowed}
use alpha_desk.Auth.Access.{HttpFailure, WorkspaceContext}
use alpha_desk.Broker.Projections.{BrokerProjectionStore}
use alpha_desk.Broker.Reconciliation
use alpha_desk.Broker.Reconciliation.{maximum_reconciliation_age}
use alpha_desk.Broker.Reconciliation.Gate.{Trusted}
use alpha_desk.Execution.Engine.{
  IntentStore, Broker, Desk, ExecutionError, execution_blocked, duplicate_submission, key_error,
  adapter_error, not_uncertain,
}
use alpha_desk.Execution.Engine.Stores.{KeepsIntents}
use alpha_desk.Connected.Records.{ConnectedOpportunity}
use alpha_desk.Desk.{confirmed_behind_gates}
use alpha_desk.Desk.Confirmation.{answered, engaged, confirm_paper_order}
use alpha_desk.Desk.Confirmation.Backing.{IsApproved, approved-IsApproved}

module _ (step : ℕ) (show : Decimal → String) {P : Type 0} (projections : BrokerProjectionStore P)
    (now : Datetime) (decision_id : Uuid) where
  answered-ok :
      (result : Result ExecutionError BrokerOrder) {order : BrokerOrder}
      → answered result ≡ ok order
      → result ≡ ok order
  answered-ok (ok order) h = ap ok (ok-injective _ _ h)
  answered-ok (err (execution_blocked reason)) h = cc
  answered-ok (err (duplicate_submission id)) h = cc
  answered-ok (err (key_error id)) h = cc
  answered-ok (err (adapter_error e)) h = cc
  answered-ok (err not_uncertain) h = cc

  module _ {S : Type 0} (o : IntentStore S) (keeps : KeepsIntents o) (broker : Broker) where
    engaged-ok :
        (status : GuardianStatus) (p : P) (tried : Result HttpFailure OrderIntent) (d : Desk S)
        {order : BrokerOrder}
        → (engaged step show projections now decision_id o keeps broker status p tried d).0
          ≡ ok order
        → (intent : OrderIntent) × (tried ≡ ok intent)
          × (status.execution_allowed ≡ true)
          × Trusted maximum_reconciliation_age now
              (projections.get_status p)
              (projections.get_account p)
    engaged-ok status p (err failure) d h = cc
    engaged-ok status p (ok intent) d {order} h =
        let (guardian, trusted) =
          confirmed_behind_gates o keeps broker projections maximum_reconciliation_age now status p
            intent d order (answered-ok _ h) in
        (intent, refl, guardian, trusted)

    -- A confirmation that returns an order was made for an opportunity of the requester's own
    -- workspace, whose intent is real, not expired and the one that the requester named. At that time
    -- the risk policy still approved the candidate in the account's state, no incident of the guardian
    -- was active, and the broker's state was reconciled, fresh, connected and of an account that may
    -- trade.
    pub confirm_paper_order-IsApproved :
        {C : Type 0} (context : WorkspaceContext) (opportunity_id : Uuid) (client_order_id : String)
        (rows : List ConnectedOpportunity) (status : GuardianStatus) (p : P) (secrets : Option C)
        (d : Desk S) {order : BrokerOrder}
        → (confirm_paper_order step show projections now decision_id o keeps broker context
            opportunity_id client_order_id rows status p secrets d).0
          ≡ ok order
        → (intent : OrderIntent) × IsApproved step show projections now decision_id context
            opportunity_id client_order_id rows p intent
          × (status.execution_allowed ≡ true)
          × Trusted maximum_reconciliation_age now
              (projections.get_status p)
              (projections.get_account p)
    unfolding confirm_paper_order
    confirm_paper_order-IsApproved context opportunity_id client_order_id rows status p secrets d
          h =
        let (intent, passed, guardian, trusted) = engaged-ok status p _ d h in
        (
          intent,
          approved-IsApproved step show projections now decision_id context opportunity_id
              client_order_id rows p secrets passed,
          guardian,
          trusted,
        )
