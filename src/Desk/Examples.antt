-- ===== src/Desk/Examples.antt =====
-- A confirmed order of apps/api/routes/desk.py behind both gates.
use alpha_desk.Base.{◌≡◌, ◌⊎◌, refl, true, false, none, some, String, [], ◌∷◌}
use alpha_desk.Base.Dict.{Dict}
use alpha_desk.Base.Results.{ok, err}
use alpha_desk.Domain.Guardian.{GuardianStatus, normal}
use alpha_desk.Broker.Projections.{
  Memory, memory_projections, memory_knows, memory_projections-BrokerWins,
}
use alpha_desk.Broker.Reconciliation.{
  maximum_reconciliation_age, evaluate, judge_status, judge_account,
}
use alpha_desk.Broker.Reconciliation.Gate.{Trusted}
use alpha_desk.Broker.Reconciliation.Failure.{begins, ends, streams, take_steps}
use alpha_desk.Guardian.Gate.{execution_allowed}
use alpha_desk.Execution.Engine.{
  ExecutionState, Broker, Desk, execution_blocked, admit, settle, execute,
}
use alpha_desk.Execution.Engine.Stores.{memory_store, memory_store-KeepsIntents, memory_reserve}
use alpha_desk.Desk.{connected_preflight, confirm, lost_stream_blocks_confirmation}
use alpha_desk.Base.Integers.{pos, ◌+ℤ◌, ◌-ℤ◌, ◌*ℤ◌, abs, max}
use alpha_desk.Base.Results.{Result}
use alpha_desk.Domain.Broker.{BrokerOrder}
use alpha_desk.Domain.Workflow.{Signal, OrderIntent}
use alpha_desk.Auth.Access.{HttpFailure, http_exception, WorkspaceContext}
use alpha_desk.Risk.Engine
use alpha_desk.Risk.Engine.{checks_of, greeks_within}
use alpha_desk.Connected.Records.{ConnectedAnalysis, ConnectedOpportunity}
use alpha_desk.Desk.Confirmation.{reviewed, approved, confirm_paper_order}
use alpha_desk.Desk.Confirmation.Backing.{IsApproved}
use alpha_desk.Desk.Confirmation.Outcome.{confirm_paper_order-IsApproved}
use alpha_desk.Guardian.Store.{table_status}
use alpha_desk.Desk.Recovery.{guardian_recover, guardian_recover_agrees}
use alpha_desk.Samples.{candidate, decision, show}
use alpha_desk.Samples.{noon, account, order, known_status, intent_of}

abbrev broker : Broker
broker = record { submit_order = λ log x. ok order; get_order = λ log id. ok (some order) }

abbrev status : GuardianStatus
status = record { state = normal; active_incident = none; execution_allowed = true }

abbrev known : Memory
known = record { status = known_status; account = some account; positions = []; orders = [] }

abbrev fresh : Desk (Dict ExecutionState)
fresh = record { store = []; submitted = [] }

confirms :
    (confirm memory_store memory_store-KeepsIntents broker memory_projections
      maximum_reconciliation_age
      (noon 20)
      status
      known
      (intent_of "5" (noon 1))
      fresh).0
    ≡ ok order
unfolding execute admit settle memory_reserve connected_preflight execution_allowed evaluate
    judge_status judge_account
confirms = refl

lost_stream_blocks_confirmation_example :
    (reason : String) × (confirm memory_store memory_store-KeepsIntents broker memory_projections
        maximum_reconciliation_age
        (noon 20)
        status
        (take_steps memory_projections
          (begins ∷ streams true ∷ ends (err "ConnectError") ∷ [])
          (memory_projections.set_stream_connected false known))
        (intent_of "5" (noon 1))
        fresh
      ≡ (err (execution_blocked reason), fresh))
lost_stream_blocks_confirmation_example =
    lost_stream_blocks_confirmation memory_store memory_store-KeepsIntents broker memory_projections
      maximum_reconciliation_age (noon 20) memory_knows memory_projections-BrokerWins
      (begins ∷ streams true ∷ ends (err "ConnectError") ∷ []) status known (intent_of "5" (noon 1))
      fresh (tt, (tt, (tt, tt)))

abbrev signal : Signal
signal = record {
  signal_id = "signal";
  symbol = "NVDA";
  strategy_family = "CATALYST_MOMENTUM";
  observed_at = noon 0;
  features = record {
    catalyst_confidence = pos 9_100;
    sentiment = pos 7_600;
    relative_volume = pos 32_000;
    price_momentum = pos 6_800;
    gap_percent = pos 42_000;
    market_confirmation = pos 3_000;
    sector_confirmation = pos 5_200;
    liquidity_score = pos 7_500;
  };
  score = pos 800_000;
  source_versions = [];
}

abbrev intent : OrderIntent
intent = record (intent_of "5" (noon 1)) { client_order_id = "ad-1" }

abbrev opportunity : ConnectedAnalysis
opportunity = record {
  opportunity_id = "opportunity";
  scan_run_id = none;
  symbol = "NVDA";
  disposition = "TRADE";
  source = "ALPACA_REAL";
  observed_at = noon 0;
  expires_at = noon 120;
  signal = signal;
  trade_idea = none;
  candidate = some candidate;
  risk_decision = some decision;
  order_intent = some intent;
  reason_codes = [];
}

abbrev row : ConnectedOpportunity
row = record {
  opportunity_id = "opportunity";
  workspace_id = "desk";
  scan_run_id = none;
  symbol = "NVDA";
  state = "TRADE";
  source = "ALPACA_REAL";
  payload = opportunity;
  observed_at = noon 0;
  expires_at = noon 120;
  created_at = noon 1;
}

abbrev context : WorkspaceContext
context = record {
  principal = record { user_id = "user"; auth_subject = "s"; email = "e"; is_admin = false };
  workspace_id = "desk";
  status = "ACTIVE";
}

abbrev keys : String
keys = "keys"

-- The request of a workspace, for the order with this identifier.
abbrev confirming :
    WorkspaceContext → String → Result HttpFailure BrokerOrder × Desk (Dict ExecutionState)
confirming who id =
    confirm_paper_order 1 show memory_projections (noon 20) "decision" memory_store
      memory_store-KeepsIntents broker who "opportunity" id (row ∷ []) status known (some keys)
      fresh

abbrev named : String
named = "ad-1"

returns_order : (confirming context named).0 ≡ ok order
unfolding confirm_paper_order approved reviewed execute admit settle memory_reserve
    connected_preflight execution_allowed evaluate judge_status judge_account Engine.evaluate
    checks_of greeks_within ◌+ℤ◌ ◌-ℤ◌ ◌*ℤ◌ abs max
returns_order = refl

abbrev stranger : WorkspaceContext
stranger = record context { workspace_id = "other" }

confirm_paper_order-IsApproved_example :
    (intent : OrderIntent) × IsApproved 1 show memory_projections
      (noon 20)
      "decision"
      context
      "opportunity"
      named
      (row ∷ [])
      known
      intent
    × (true ≡ true)
    × Trusted maximum_reconciliation_age (noon 20) known_status (some account)
confirm_paper_order-IsApproved_example =
    confirm_paper_order-IsApproved 1 show memory_projections (noon 20) "decision" memory_store
      memory_store-KeepsIntents broker context "opportunity" named (row ∷ []) status known
      (some keys) fresh returns_order

guardian_recover_agrees_example :
    ((g : GuardianStatus) × ((guardian_recover memory_projections "desk" (noon 20) known []).0
        ≡ ok g)
      × (table_status "desk" (guardian_recover memory_projections "desk" (noon 20) known []).1 ≡ g)
      × (g.execution_allowed ≡ true)
      × ((evaluate memory_projections maximum_reconciliation_age (noon 20) known).allowed
          ≡ (judge_account (some account)).allowed))
    ⊎ ((guardian_recover memory_projections "desk" (noon 20) known [] ≡ (
      err (http_exception 409 "Guardian recovery requires known reconciled broker state"),
      [],
    ))
        × ((evaluate memory_projections maximum_reconciliation_age (noon 20) known).allowed
            ≡ false))
guardian_recover_agrees_example =
    guardian_recover_agrees memory_projections "desk" (noon 20) known []
