-- ===== src/Execution/Engine/Examples.antt =====
-- Runs of packages/execution/engine.py on the in-memory store, and its theorems there.
use alpha_desk.Base.{true, ◌≤◌, ◌≡◌, ◌≢◌, refl, none, some, String, [], ◌∷◌, arith, str_eq_iff}
use alpha_desk.Base.Integers.{pos}
use alpha_desk.Base.Dict.{Dict}
use alpha_desk.Base.Results.{ok, err}
use alpha_desk.Domain.Broker.{BrokerOrder}
use alpha_desk.Domain.Workflow.{OrderIntent, buy, sell}
use alpha_desk.Execution.Engine.{
  ExecutionState, submission_started, submission_uncertain, accepted, duplicate_submission,
  adapter_error, Broker, Desk, submission_of, admit, settle, execute, reconcile_uncertain,
}
use alpha_desk.Execution.Engine.Stores.{
  memory_store, memory_reserve, memory_store-KeepsIntents, IntentTable, table_store,
  table_store-KeepsIntents, select_state, table_reserve,
}
use alpha_desk.Execution.Engine.Outcomes.{
  Shows, Resolved, execute_refused, execute_new, reconcile_uncertain_resolves,
}
use alpha_desk.Execution.Engine.Interleaving.{
  Shared, admitted, sent, Reach, here, next, IsOnce, submissions, submitted_at_most_once,
}
use alpha_desk.Samples.{noon}

abbrev intent : OrderIntent
intent = record {
  order_intent_id = "50000000";
  client_order_id = "ad-1";
  risk_decision_id = "40000000";
  legs =
      record { symbol = "NVDA120"; side = buy; ratio = 1 }
      ∷ record { symbol = "NVDA125"; side = sell; ratio = 1 }
      ∷ [];
  quantity = 1;
  limit_price = pos 21_000;
  time_in_force = "day";
  execution_policy = "LIMIT_AT_CALCULATED_NET_V1";
  created_at = noon 1;
}

abbrev order : BrokerOrder
order = record {
  broker_order_id = "b-1";
  client_order_id = "ad-1";
  status = "accepted";
  asset_class = "us_option";
  symbol = none;
  side = none;
  order_type = "limit";
  order_class = "mleg";
  time_in_force = "day";
  quantity = some (pos 10_000);
  filled_quantity = pos 0;
  filled_average_price = none;
  limit_price = some (pos 21_000);
  submitted_at = none;
  created_at = noon 2;
  updated_at = none;
  legs = [];
}

-- A broker that times out on the first submission, though it has the order.
abbrev broker : Broker
broker = record { submit_order = λ log x. err "timeout"; get_order = λ log id. ok (some order) }

abbrev fresh : Desk (Dict ExecutionState)
fresh = record { store = []; submitted = [] }

abbrev uncertain : Desk (Dict ExecutionState)
uncertain = record {
  store = ("ad-1", submission_uncertain) ∷ [];
  submitted = submission_of intent ∷ [];
}

times_out :
    execute memory_store broker none intent fresh ≡ (err (adapter_error "timeout"), uncertain)
unfolding execute admit settle memory_reserve
times_out = refl

then_duplicate :
    execute memory_store broker none intent uncertain
    ≡ (err (duplicate_submission "ad-1"), uncertain)
unfolding execute admit settle memory_reserve
then_duplicate = refl

then_found :
    reconcile_uncertain memory_store broker intent uncertain
    ≡ (ok (some order), record uncertain { store = ("ad-1", accepted) ∷ [] })
unfolding reconcile_uncertain
then_found = refl

execute_refused_example :
    execute memory_store broker (some (true, "Guardian is normal")) intent uncertain
    ≡ (err (duplicate_submission "ad-1"), uncertain)
execute_refused_example =
    execute_refused memory_store memory_store-KeepsIntents broker
      (some (true, "Guardian is normal")) intent uncertain submission_uncertain refl

execute_new_example :
    let (result, d) = execute memory_store broker none intent fresh in
    (result ≡ err (adapter_error "timeout"))
    × (d.submitted ≡ submission_of intent ∷ [])
    × Shows memory_store memory_store-KeepsIntents "ad-1" submission_uncertain [] d.store
execute_new_example =
    execute_new memory_store memory_store-KeepsIntents broker none intent fresh tt refl

reconcile_uncertain_resolves_example :
    let (result, d) = reconcile_uncertain memory_store broker intent uncertain in
    (d.submitted ≡ submission_of intent ∷ [])
    × (result ≡ ok (some order))
    × Resolved memory_store memory_store-KeepsIntents intent uncertain.store
        (ok (some order))
        d.store
reconcile_uncertain_resolves_example =
    reconcile_uncertain_resolves memory_store memory_store-KeepsIntents broker intent uncertain refl

abbrev idle : Shared IntentTable
idle = record { store = []; in_flight = []; answered = []; submitted = [] }

w-ne-v : ◌≢◌ {A = String} "w" "v"
w-ne-v = ground (arith, str_eq_iff "w" "v")

idle-IsOnce : IsOnce (table_store "w" (noon 0)) idle
idle-IsOnce = record { once = λ k. omega arith; known = λ k e. refl }

abbrev row_after : IntentTable
row_after =
    record {
      workspace_id = "w";
      client_order_id = "ad-1";
      state = submission_started;
      payload = intent;
      updated_at = noon 0;
    }
    ∷ []

reserved_and_sent : Reach (table_store "w" (noon 0)) idle (record {
  store = row_after;
  in_flight = [];
  answered = (intent, err "timeout") ∷ [];
  submitted = submission_of intent ∷ [];
})
unfolding admit table_reserve select_state
reserved_and_sent =
    next (next here (admitted none intent row_after refl)) (sent [] [] intent (err "timeout") refl)

submitted_at_most_once_example :
    submissions "ad-1" (record {
      store = row_after;
      in_flight = [];
      answered = (intent, err "timeout") ∷ [];
      submitted = submission_of intent ∷ [];
    })
    ≤ 1
submitted_at_most_once_example =
    submitted_at_most_once (table_store "w" (noon 0)) (table_store-KeepsIntents "w" (noon 0)) idle
      "ad-1" idle-IsOnce reserved_and_sent
