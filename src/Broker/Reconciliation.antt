-- ===== src/Broker/Reconciliation.antt =====
-- packages/broker/reconciliation.py: the gate that says whether the broker is known well enough to
-- trade, and the service that keeps the copy of the broker's state up to date.
pub mod Gate
pub mod Recovery
pub mod Failure
use alpha_desk.Base.{
  ℕ, ◌*◌, ◌≡◌, Bool, true, false, not, ◌||◌, Option, none, some, String, List, [], ◌∷◌,
  if◌then◌else◌,
}
use alpha_desk.Base.Results.{Result, ok, err, ◌>>=◌}
use alpha_desk.Domain.Time.{Datetime, micros_per_second, is_older_than_micros}
use alpha_desk.Domain.System.{
  BrokerState, not_configured, unknown, reconciling, reconciled, divergent, is_reconciled,
}
use alpha_desk.Domain.Broker.{
  BrokerAccount, BrokerTradeUpdate, ReconciliationSnapshot, BrokerSyncStatus,
}
use alpha_desk.Domain.Workflow.{◌⧺◌}
use alpha_desk.Broker.Projections.{BrokerProjectionStore}

pub record ExecutionGateDecision : Type 0 where
  pub allowed : Bool
  pub reason : String

abbrev refused : String → ExecutionGateDecision
refused reason = record { allowed = false; reason = reason }

-- `BrokerState.value`
abbrev pub state_text : BrokerState → String
state_text not_configured = "NOT_CONFIGURED"
state_text unknown = "UNKNOWN"
state_text reconciling = "RECONCILING"
state_text reconciled = "RECONCILED"
state_text divergent = "DIVERGENT"

abbrev pub is_barred : BrokerAccount → Bool
is_barred account =
    account.account_blocked || account.trading_blocked || account.trade_suspended_by_user

-- The default of `maximum_reconciliation_age`, in microseconds.
abbrev pub maximum_reconciliation_age : ℕ
maximum_reconciliation_age = 90 * micros_per_second

-- The last two tests of `evaluate`.
unfoldable pub judge_account : Option BrokerAccount → ExecutionGateDecision
judge_account none = refused "Broker account projection is absent."
judge_account (some account) =
    if is_barred account
    then refused "Alpaca account is blocked or suspended."
    else record { allowed = true; reason = "Broker state is known and reconciled." }

-- The tests of the time and of the stream.
unfoldable pub judge_status :
    ℕ → Datetime → BrokerSyncStatus → Option Datetime → Option BrokerAccount → ExecutionGateDecision
judge_status maximum_age now status none account = refused "Reconciliation timestamp is unknown."
judge_status maximum_age now status (some at) account =
    if is_older_than_micros now at maximum_age
    then refused "Broker reconciliation is stale."
    else if not status.stream_connected
    then refused "Alpaca trade_updates stream is not connected."
    else judge_account account

module _ {S : Type 0} (o : BrokerProjectionStore S) where
  -- `BrokerExecutionGate.evaluate`
  unfoldable pub evaluate : ℕ → Datetime → S → ExecutionGateDecision
  evaluate maximum_age now s =
      let status = o.get_status s in
      if not (is_reconciled status.state)
      then refused ("Broker state is " ⧺ state_text status.state ⧺ "; reconciliation is required.")
      else judge_status maximum_age now status status.last_reconciled_at (o.get_account s)

  -- `ReconciliationService.reconcile` up to the call of the adapter.
  unfoldable pub begin_reconcile : S → S
  begin_reconcile s = o.mark_state reconciling none s

  abbrev finish : Result String (ℕ × S) → S → Result String ℕ × S
  finish (ok (n, s')) s = (ok n, s')
  finish (err e) s = (err e, o.mark_state unknown (some ("Reconciliation failed: " ⧺ e)) s)

  -- ... and behind it, where other tasks may have run in between.
  unfoldable pub end_reconcile : Result String ReconciliationSnapshot → S → Result String ℕ × S
  end_reconcile answer s = finish (answer >>= λ snapshot. o.apply_reconciliation snapshot s) s

  unfoldable pub reconcile : Result String ReconciliationSnapshot → S → Result String ℕ × S
  reconcile answer s = end_reconcile answer (begin_reconcile s)

  -- The updates up to the end of the stream, or to the exception of the stream or of the store.
  pub apply_updates : List BrokerTradeUpdate → Option String → S → Result String (Unit {0}) × S
  apply_updates [] none s = (ok tt, s)
  apply_updates [] (some e) s = (err e, s)
  apply_updates (update ∷ updates) ending s = elim (o.apply_trade_update update s) [
    | ok s' ↦ apply_updates updates ending s'
    | err e ↦ (err e, s)
  ]

  -- The handler of exceptions and the `finally` of `consume_trade_updates`.
  abbrev close : Result String (Unit {0}) × S → Result String (Unit {0}) × S
  close (ok _, s) = (ok tt, o.set_stream_connected false s)
  close (err e, s) = (
    err e,
    o.set_stream_connected false (
        o.mark_state unknown (some "Alpaca trade_updates stream disconnected.")
          (o.set_stream_connected false s)),
  )

  pub consume_trade_updates :
      List BrokerTradeUpdate → Option String → S → Result String (Unit {0}) × S
  consume_trade_updates updates ending s =
      close (apply_updates updates ending (o.set_stream_connected true s))
