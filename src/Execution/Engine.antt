-- ===== src/Execution/Engine.antt =====
-- packages/execution/engine.py and packages/execution/store.py: submission through the broker
-- adapter, at most once for each client order id.
-- The state is the intent store and the log of what has been handed to the adapter. `execute` is
-- written in the phases between which other tasks can run: `admit` up to the reservation, the call
-- of the adapter, and `settle` behind it.
pub mod Stores
pub mod Outcomes
pub mod Interleaving
mod Examples
use alpha_desk.Base.{
  ℕ, ◌≡◌, Bool, true, false, Option, none, some, String, List, [], ◌∷◌, ◌++◌, map, str_eq,
  if◌then◌else◌,
}
use alpha_desk.Base.Results.{Result, ok, err}
use alpha_desk.Domain.Broker.{BrokerOrder, SubmissionLeg, OrderSubmission}
use alpha_desk.Domain.Workflow.{IntentLeg, OrderIntent}

pub data ExecutionState : Type 0 where
  created risk_approved submission_started submission_uncertain : ExecutionState
  accepted rejected canceled partially_filled filled : ExecutionState

abbrev pub is_uncertain : Option ExecutionState → Bool
is_uncertain (some submission_uncertain) = true
is_uncertain _ = false

-- What `execute` and `reconcile_uncertain` raise. The adapter's own exceptions carry a text; a
-- `key_error` is the store's, for an id that it does not hold.
pub data ExecutionError : Type 0 where
  execution_blocked : String → ExecutionError
  duplicate_submission key_error : String → ExecutionError
  adapter_error : String → ExecutionError
  not_uncertain : ExecutionError

-- The protocol `IntentStore`; `none` is the `KeyError` of a store that does not hold the id.
pub record IntentStore (S : Type 0) : Type 0 where
  pub reserve_submission : OrderIntent → S → Bool × S
  pub set_state : String → ExecutionState → S → Option S
  pub get_state : String → S → Option ExecutionState

-- The broker behind the adapter. Its answer may depend on all that was submitted before.
pub record Broker : Type 0 where
  pub submit_order : List OrderSubmission → OrderSubmission → Result String BrokerOrder
  pub get_order : List OrderSubmission → String → Result String (Option BrokerOrder)

pub record Desk (S : Type 0) : Type 0 where
  pub store : S
  pub submitted : List OrderSubmission

pub submission_leg : IntentLeg → SubmissionLeg
submission_leg leg = record { symbol = leg.symbol; side = leg.side; ratio = leg.ratio }

pub submission_of : OrderIntent → OrderSubmission
submission_of intent = record {
  client_order_id = intent.client_order_id;
  quantity = intent.quantity;
  limit_price = intent.limit_price;
  time_in_force = intent.time_in_force;
  legs = map submission_leg intent.legs;
}

module _ {S : Type 0} (o : IntentStore S) where
  abbrev pub reserved : String → Bool × S → Result ExecutionError (Unit {0}) × S
  reserved id (true, s) = (ok tt, s)
  reserved id (false, s) = (err (duplicate_submission id), s)

  -- `execute` up to the reservation. The preflight is what the gate answers now, if there is one.
  unfoldable pub admit :
      Option (Bool × String) → OrderIntent → S → Result ExecutionError (Unit {0}) × S
  admit none intent s = reserved intent.client_order_id (o.reserve_submission intent s)
  admit (some (false, reason)) intent s = (err (execution_blocked reason), s)
  admit (some (true, _)) intent s = reserved intent.client_order_id (o.reserve_submission intent s)

  -- A state that could not be set raises before anything else.
  abbrev pub after_set :
      {A : Type 0} → String → S → Result ExecutionError A → Option S → Result ExecutionError A × S
  after_set id s result none = (err (key_error id), s)
  after_set id s result (some s') = (result, s')

  abbrev marked :
      {A : Type 0}
      → String
      → ExecutionState
      → S
      → Result ExecutionError A
      → Result ExecutionError A × S
  marked id state s result = after_set id s result (o.set_state id state s)

  -- `execute` behind the call of the adapter.
  unfoldable pub settle :
      OrderIntent → Result String BrokerOrder → S → Result ExecutionError BrokerOrder × S
  settle intent (ok order) s = marked intent.client_order_id accepted s (ok order)
  settle intent (err e) s =
      marked intent.client_order_id submission_uncertain s (err (adapter_error e))

  abbrev pub submit :
      Broker
      → OrderIntent
      → Result ExecutionError (Unit {0}) × S
      → List OrderSubmission
      → Result ExecutionError BrokerOrder × Desk S
  submit broker intent (err e, s) log = (err e, record { store = s; submitted = log })
  submit broker intent (ok _, s) log =
      let (result, s') = settle intent (broker.submit_order log (submission_of intent)) s in
      (result, record { store = s'; submitted = log ++ submission_of intent ∷ [] })

  -- `ExecutionEngine.execute`
  unfoldable pub execute :
      Broker
      → Option (Bool × String)
      → OrderIntent
      → Desk S
      → Result ExecutionError BrokerOrder × Desk S
  execute broker preflight intent d =
      submit broker intent (admit preflight intent d.store) d.submitted

  abbrev resolve :
      OrderIntent
      → Result String (Option BrokerOrder)
      → S
      → Result ExecutionError (Option BrokerOrder) × S
  resolve intent (err e) s = (err (adapter_error e), s)
  resolve intent (ok none) s = (ok none, s)
  resolve intent (ok (some order)) s = marked intent.client_order_id accepted s (ok (some order))

  -- `ExecutionEngine.reconcile_uncertain`
  pub reconcile_uncertain :
      Broker → OrderIntent → Desk S → Result ExecutionError (Option BrokerOrder) × Desk S
  reconcile_uncertain broker intent d =
      if is_uncertain (o.get_state intent.client_order_id d.store)
      then (let (result, s') =
            resolve intent (broker.get_order d.submitted intent.client_order_id) d.store in
          (result, record d { store = s' }))
      else (err not_uncertain, d)
