-- ===== src/Guardian/Examples.antt =====
-- Runs of packages/guardian, and its theorems at concrete observations and calls.
use alpha_desk.Base.{◌≡◌, ◌↔◌, refl, true, false, none, some, List, [], ◌∷◌}
use alpha_desk.Base.Dict.{Dict}
use alpha_desk.Base.Results.{ok, err}
use alpha_desk.Domain.Guardian.{
  manual_kill_switch, stale_market_data, stream_disconnected, abnormal_order_rate,
  GuardianObservation, default_guardian_policy,
}
use alpha_desk.Domain.Workflow.{OrderIntent, buy}
use alpha_desk.Execution.Engine.{ExecutionState, execution_blocked, execute, Broker, Desk}
use alpha_desk.Execution.Engine.Stores.{memory_store, memory_store-KeepsIntents}
use alpha_desk.Guardian.Engine.{is_stale, triggers_of, evaluate}
use alpha_desk.Guardian.Engine.Triggers.{reports, evaluate-reports_iff}
use alpha_desk.Guardian.Store.{memory_halt, table_status}
use alpha_desk.Guardian.Store.Refinement.{
  Call, ask_status, halt, recover, memory_run, table_run, seen, table_run-refines,
}
use alpha_desk.Guardian.Gate.{execution_allowed, halted_blocks_execute}
use alpha_desk.Samples.{noon}
use alpha_desk.Base.Integers.{pos}

-- Market data 16 seconds old and the stream down.
abbrev observation : GuardianObservation
observation = record {
  observed_at = noon 16;
  latest_market_data_at = some (noon 0);
  broker_stream_connected = false;
  broker_reconciled = true;
  divergence_count = 0;
  duplicate_order_patterns = 0;
  policy_breach = false;
  recent_order_rejections = 2;
  orders_last_minute = 5;
  uncovered_short_option_legs = 0;
}

two_triggers :
    triggers_of default_guardian_policy observation ≡ stale_market_data ∷ stream_disconnected ∷ []
unfolding triggers_of is_stale
two_triggers = refl

evaluate-reports_iff_example :
    (reports stream_disconnected (evaluate default_guardian_policy observation).triggers ≡ true)
    ↔ (false ≡ false)
evaluate-reports_iff_example =
    evaluate-reports_iff default_guardian_policy observation stream_disconnected

abbrev kill : Call
kill = halt "i-1" (noon 1) (manual_kill_switch ∷ []) "operator"

abbrev while_halted : List Call
while_halted =
    ask_status ∷ halt "i-2" (noon 2) (abnormal_order_rate ∷ []) "rate" ∷ recover (noon 3) false ∷ []

table_run-refines_example :
    let (replies, rows) = table_run "w" (kill ∷ recover (noon 4) true ∷ ask_status ∷ []) [] in
    let (replies', s) = memory_run (kill ∷ recover (noon 4) true ∷ ask_status ∷ []) (seen "w" []) in
    (replies ≡ replies') × (seen "w" rows ≡ s)
table_run-refines_example =
    table_run-refines "w" (kill ∷ recover (noon 4) true ∷ ask_status ∷ []) []

abbrev intent : OrderIntent
intent = record {
  order_intent_id = "5";
  client_order_id = "ad-7";
  risk_decision_id = "4";
  legs = record { symbol = "NVDA120"; side = buy; ratio = 1 } ∷ [];
  quantity = 1;
  limit_price = pos 42_000;
  time_in_force = "day";
  execution_policy = "LIMIT_AT_CALCULATED_NET_V1";
  created_at = noon 1;
}

abbrev refusing : Broker
refusing = record { submit_order = λ log x. err "down"; get_order = λ log id. ok none }

abbrev fresh : Desk (Dict ExecutionState)
fresh = record { store = []; submitted = [] }

halted_blocks_execute_example :
    let status = table_status "w" (table_run "w" (kill ∷ while_halted) []).1 in
    let incident =
      (memory_halt "i-1" (noon 1) (manual_kill_switch ∷ []) "operator" (seen "w" [])).0 in
    execute memory_store refusing (some (execution_allowed status)) intent fresh
    ≡ (err (execution_blocked incident.reason), fresh)
halted_blocks_execute_example =
    halted_blocks_execute memory_store memory_store-KeepsIntents refusing "w" "i-1" (noon 1)
      (manual_kill_switch ∷ []) "operator" while_halted [] intent fresh (tt, (tt, (tt, tt)))
