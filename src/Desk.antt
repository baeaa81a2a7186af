-- ===== src/Desk.antt =====
-- apps/api/routes/desk.py: `ConnectedPreflight`, the two gates that stand before the execution
-- engine when an order is confirmed, and what they let through.
pub mod Confirmation
pub mod Recovery
mod Examples
use alpha_desk.Base.{
  ℕ, ◌≡◌, ◌≢◌, ◌↔◌, refl, ap, sym, ◌∙◌, Bool, true, false, not, Option, none, some, String, List,
  [], ◌∷◌, ◌++◌, if◌then◌else◌, is_some, arith, Bool-cases, inl, inr, All,
}
use alpha_desk.Base.Results.{Result, ok, err, err≢ok}
use alpha_desk.Domain.Time.{Datetime}
use alpha_desk.Domain.Guardian.{GuardianStatus}
use alpha_desk.Domain.Broker.{BrokerOrder}
use alpha_desk.Domain.Workflow.{OrderIntent}
use alpha_desk.Broker.Projections.{BrokerProjectionStore, Knows, BrokerWins}
use alpha_desk.Broker.Reconciliation.{ExecutionGateDecision, evaluate}
use alpha_desk.Broker.Reconciliation.Gate.{Trusted, evaluate_allows_iff}
use alpha_desk.Broker.Reconciliation.Failure.{Step, IsUnanswered, take_steps, lost_stream_shuts}
use alpha_desk.Guardian.Gate.{execution_allowed, execution_allowed_lem}
use alpha_desk.Execution.Engine.{
  IntentStore, Broker, Desk, ExecutionError, execution_blocked, execute,
}
use alpha_desk.Execution.Engine.Stores.{KeepsIntents}
use alpha_desk.Execution.Engine.Outcomes.{execute_blocked}

-- `ConnectedPreflight.execution_allowed`, from the answers of the two gates.
unfoldable pub connected_preflight : Bool × String → ExecutionGateDecision → Bool × String
connected_preflight (false, reason) broker = (false, reason)
connected_preflight (true, _) broker = (broker.allowed, broker.reason)

module _ {S P : Type 0} (o : IntentStore S) (keeps : KeepsIntents o) (broker : Broker)
    (projections : BrokerProjectionStore P) (maximum_age : ℕ) (now : Datetime) where
  -- A confirmed order is executed behind both gates.
  abbrev pub confirm :
      GuardianStatus → P → OrderIntent → Desk S → Result ExecutionError BrokerOrder × Desk S
  confirm status p intent d =
      execute o broker
        (some
          (connected_preflight (execution_allowed status) (evaluate projections maximum_age now p)))
        intent d

  shut_blocks :
      (gate : Bool × String) (decision : ExecutionGateDecision) (intent : OrderIntent) (d : Desk S)
      → (connected_preflight gate decision).0 ≡ false
      → (reason : String) × (execute o broker (some (connected_preflight gate decision)) intent d
          ≡ (err (execution_blocked reason), d))
  shut_blocks gate decision intent d shut =
      let reason = (connected_preflight gate decision).1 in
      (
        reason,
        ap (λ b. execute o broker (some (b, reason)) intent d) shut
            ∙ execute_blocked o keeps broker intent d reason,
      )

  broker_shut :
      (gate : Bool × String) (decision : ExecutionGateDecision)
      → decision.allowed ≡ false
      → (connected_preflight gate decision).0 ≡ false
  unfolding connected_preflight
  broker_shut (false, reason) decision h = refl
  broker_shut (true, reason) decision h = h

  both_open :
      (gate : Bool × String) (decision : ExecutionGateDecision)
      → (connected_preflight gate decision).0 ≡ true
      → (gate.0 ≡ true) × (decision.allowed ≡ true)
  unfolding connected_preflight
  both_open (false, reason) decision h = cc
  both_open (true, reason) decision h = (refl, h)

  -- If a confirmed order reaches the broker, then no incident of the guardian is active, and the
  -- copy of the broker's state is reconciled, fresh, connected and of an account that may trade.
  pub confirmed_behind_gates :
      (status : GuardianStatus) (p : P) (intent : OrderIntent) (d : Desk S) (order : BrokerOrder)
      → (confirm status p intent d).0 ≡ ok order
      → (status.execution_allowed ≡ true)
        × Trusted maximum_age now (projections.get_status p) (projections.get_account p)
  confirmed_behind_gates status p intent d order h =
      let gate = execution_allowed status in
      let decision = evaluate projections maximum_age now p in
      elim (Bool-cases (connected_preflight gate decision).0) [
        | inl opened ↦
            let (guardian, known) = both_open gate decision opened in
            (
              sym (execution_allowed_lem status) ∙ guardian,
              (evaluate_allows_iff projections maximum_age now p).0 known,
            )
        | inr shut ↦
            let (reason, blocked) = shut_blocks gate decision intent d shut in
            absurd (err≢ok (sym (ap (λ r. r.0) blocked) ∙ h))
      ]

  -- Once the stream of the broker was lost, no order is confirmed through every interleaving of the
  -- worker's tasks in which no reconciliation gets an answer: the attempt raises, and nothing is
  -- reserved or submitted.
  pub lost_stream_blocks_confirmation :
      (knows : Knows P) (wins : BrokerWins projections knows) (steps : List Step)
      (status : GuardianStatus) (p : P) (intent : OrderIntent) (d : Desk S)
      → All IsUnanswered steps
      → (reason : String) × (confirm status
            (take_steps projections steps (projections.set_stream_connected false p))
            intent
            d
          ≡ (err (execution_blocked reason), d))
  lost_stream_blocks_confirmation knows wins steps status p intent d un =
      shut_blocks (execution_allowed status) _ intent d (
        broker_shut (execution_allowed status) _
          (lost_stream_shuts projections knows wins steps p maximum_age now un))
