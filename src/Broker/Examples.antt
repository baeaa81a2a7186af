-- ===== src/Broker/Examples.antt =====
-- Runs of packages/broker on concrete data.
use alpha_desk.Base.{◌≡◌, ◌≢◌, ◌↔◌, ◌≤◌, ◌+◌, refl, Bool, true, false, none, String, List, [], ◌∷◌}
use alpha_desk.Base.Results.{ok, err}
use alpha_desk.Domain.Broker.{BrokerTradeUpdate, ReconciliationSnapshot}
use alpha_desk.Broker.Projections.{
  memory_projections, memory_knows, memory_projections-BrokerWins, initial_memory, Memory,
  memory_set_stream, memory_reconciliation, memory_mark_state,
}
use alpha_desk.Broker.Projections.Table.{Tables, table_projections}
use alpha_desk.Broker.Reconciliation.{
  evaluate, begin_reconcile, end_reconcile, reconcile, maximum_reconciliation_age,
}
use alpha_desk.Broker.Reconciliation.Gate.{Trusted, evaluate_allows_iff}
use alpha_desk.Broker.Reconciliation.Recovery.{reconcile_opens_iff}
use alpha_desk.Broker.Reconciliation.Failure.{Step, begins, ends, streams, updates}
use alpha_desk.Samples.{account, order, known_status, noon}

abbrev snapshot : ReconciliationSnapshot
snapshot = record {
  account = account;
  positions = [];
  open_orders = order ∷ [];
  reconciled_at = noon 10;
}

abbrev update : BrokerTradeUpdate
update = record {
  event = "fill";
  order = order;
  execution_id = none;
  price = none;
  quantity = none;
  position_quantity = none;
  occurred_at = noon 5;
}

abbrev empty_tables : Tables
empty_tables = record { sync_state = []; accounts = []; positions = []; orders = [] }

abbrev by_symbol : String → String → Bool
by_symbol _ _ = true

abbrev connected_memory : Memory
connected_memory = memory_set_stream true initial_memory

returns : (reconcile memory_projections (ok snapshot) connected_memory).0 ≡ ok 1
unfolding reconcile end_reconcile begin_reconcile memory_reconciliation memory_mark_state
    memory_set_stream
returns = refl

abbrev known_tables : Tables
known_tables = record {
  sync_state = ("desk", known_status) ∷ [];
  accounts = record { workspace_id = "desk"; entry = account } ∷ [];
  positions = [];
  orders = [];
}

evaluate_allows_iff_example :
    ((evaluate
        (table_projections "desk" by_symbol)
        maximum_reconciliation_age
        (noon 20)
        known_tables).allowed
      ≡ true)
    ↔ Trusted maximum_reconciliation_age
        (noon 20)
        ((table_projections "desk" by_symbol).get_status known_tables)
        ((table_projections "desk" by_symbol).get_account known_tables)
evaluate_allows_iff_example =
    evaluate_allows_iff (table_projections "desk" by_symbol) maximum_reconciliation_age (noon 20)
      known_tables

-- The stream drops, comes back with an update, and a reconciliation fails meanwhile.
abbrev steps : List Step
steps = begins ∷ streams true ∷ updates update ∷ ends (err "ConnectError") ∷ updates update ∷ []

apart : ◌≢◌ {A = String} "desk" "other"
apart h = cc

reconcile_opens_iff_example :
    ((evaluate memory_projections maximum_reconciliation_age
        (noon 20)
        (reconcile memory_projections (ok snapshot) connected_memory).1).allowed
      ≡ true)
    ↔ (((noon 20).micros ≤ (noon 10).micros + maximum_reconciliation_age)
        × (true ≡ true)
        × (false ≡ false)
        × (false ≡ false)
        × (false ≡ false))
unfolding memory_set_stream
reconcile_opens_iff_example =
    reconcile_opens_iff memory_projections memory_knows memory_projections-BrokerWins snapshot
      connected_memory 1 maximum_reconciliation_age (noon 20) returns
