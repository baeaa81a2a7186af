-- ===== src/Execution/Engine/Stores.antt =====
-- The intent stores of packages/execution: `InMemoryIntentStore` (engine.py) and
-- `PostgresIntentStore` (store.py), and the contract that both keep.
use alpha_desk.Base.{
  ◌≡◌, ◌≢◌, refl, Bool, true, false, ◌&&◌, Option, none, some, String, List, [], ◌∷◌, ◌++◌, arith,
  str_eq, str_eq_iff, str_eq_self, if◌then◌else◌, Bool-cases, inl, inr, is_some,
}
use alpha_desk.Base.Dict.{Dict, lookup, contains, insert, lookup-insert}
use alpha_desk.Domain.Time.{Datetime}
use alpha_desk.Domain.Workflow.{Uuid, OrderIntent}
use alpha_desk.Execution.Engine.{ExecutionState, submission_started, IntentStore}

-- What the engine relies on. `get_state` shows all of the store that matters.
pub record KeepsIntents {S : Type 0} (o : IntentStore S) : Type 0 where
  pub reserve_new :
      (intent : OrderIntent) (s : S)
      → o.get_state intent.client_order_id s ≡ none
      → ((o.reserve_submission intent s).0 ≡ true)
        × ((k : String)
            → o.get_state k (o.reserve_submission intent s).1 ≡ (
                if str_eq intent.client_order_id k
                then some submission_started
                else o.get_state k s))
  pub reserve_known :
      (intent : OrderIntent) (s : S) (state : ExecutionState)
      → o.get_state intent.client_order_id s ≡ some state
      → o.reserve_submission intent s ≡ (false, s)
  pub set_known :
      (id : String) (next : ExecutionState) (s : S) (state : ExecutionState)
      → o.get_state id s ≡ some state
      → (s' : S) × (o.set_state id next s ≡ some s')
        × ((k : String) → o.get_state k s' ≡ (if str_eq id k then some next else o.get_state k s))

-- `InMemoryIntentStore`: the dict `states`.
unfoldable pub memory_reserve : OrderIntent → Dict ExecutionState → Bool × Dict ExecutionState
memory_reserve intent states =
    if contains intent.client_order_id states
    then (false, states)
    else (true, insert intent.client_order_id submission_started states)

abbrev pub memory_store : IntentStore (Dict ExecutionState)
memory_store = record {
  reserve_submission = memory_reserve;
  set_state = λ id state states. some (insert id state states);
  get_state = lookup;
}

pub memory_store-KeepsIntents : KeepsIntents memory_store
unfolding memory_reserve
memory_store-KeepsIntents = record {
  reserve_new = λ intent s fresh.
      rw fresh (refl, λ k. lookup-insert intent.client_order_id k submission_started s);
  reserve_known = λ intent s state known. rw known;
  set_known = λ id next s state known. (insert id next s, refl, λ k. lookup-insert id k next s);
}

-- A row of the table of order intents. `payload` is the stored intent.
pub record IntentRow : Type 0 where
  pub workspace_id : Uuid
  pub client_order_id : String
  pub state : ExecutionState
  pub payload : OrderIntent
  pub updated_at : Datetime

abbrev pub IntentTable : Type 0
IntentTable = List IntentRow

-- `PostgresIntentStore` of one workspace, at the time `now`.
module _ (workspace : Uuid) (now : Datetime) where
  abbrev mine : String → IntentRow → Bool
  mine id row = str_eq row.workspace_id workspace && str_eq row.client_order_id id

  unfoldable pub select_state : String → IntentTable → Option ExecutionState
  select_state id [] = none
  select_state id (row ∷ rows) = if mine id row then some row.state else select_state id rows

  abbrev intent_row : OrderIntent → IntentRow
  intent_row intent = record {
    workspace_id = workspace;
    client_order_id = intent.client_order_id;
    state = submission_started;
    payload = intent;
    updated_at = now;
  }

  -- The insert with `on_conflict_do_nothing`.
  unfoldable pub table_reserve : OrderIntent → IntentTable → Bool × IntentTable
  table_reserve intent rows =
      if is_some (select_state intent.client_order_id rows)
      then (false, rows)
      else (true, rows ++ intent_row intent ∷ [])

  unfoldable pub update_rows : String → ExecutionState → IntentTable → IntentTable
  update_rows id state [] = []
  update_rows id state (row ∷ rows) =
      (if mine id row then record row { state = state; updated_at = now } else row)
      ∷ update_rows id state rows

  -- An update that returns no row is a `KeyError`.
  unfoldable pub table_set_state : String → ExecutionState → IntentTable → Option IntentTable
  table_set_state id state rows =
      if is_some (select_state id rows) then some (update_rows id state rows) else none

  abbrev pub table_store : IntentStore IntentTable
  table_store = record {
    reserve_submission = table_reserve;
    set_state = table_set_state;
    get_state = select_state;
  }

  select-append :
      (k : String) (intent : OrderIntent) (rows : IntentTable)
      → select_state intent.client_order_id rows ≡ none
      → select_state k (rows ++ intent_row intent ∷ [])
        ≡ (if str_eq intent.client_order_id k then some submission_started else select_state k rows)
  unfolding select_state
  select-append k intent [] fresh = ground (arith, str_eq_self workspace)
  select-append k intent (row ∷ rows) fresh = ground (
    arith,
    str_eq_iff row.client_order_id k,
    str_eq_iff intent.client_order_id k,
    str_eq_iff row.client_order_id intent.client_order_id,
    select-append k intent rows,
  )

  select-update_self :
      (id : String) (next : ExecutionState) (rows : IntentTable) (state : ExecutionState)
      → select_state id rows ≡ some state
      → select_state id (update_rows id next rows) ≡ some next
  unfolding select_state update_rows
  select-update_self id next [] state known = cc
  select-update_self id next (row ∷ rows) state known =
      ground (arith, select-update_self id next rows state)

  select-update_other :
      (id k : String) (next : ExecutionState) (rows : IntentTable)
      → str_eq id k ≡ false
      → select_state k (update_rows id next rows) ≡ select_state k rows
  unfolding select_state update_rows
  select-update_other id k next [] other = refl
  select-update_other id k next (row ∷ rows) other = ground (
    arith,
    str_eq_iff row.client_order_id k,
    str_eq_iff row.client_order_id id,
    str_eq_iff id k,
    select-update_other id k next rows,
  )

  select-update :
      (id k : String) (next : ExecutionState) (rows : IntentTable) (state : ExecutionState)
      → select_state id rows ≡ some state
      → select_state k (update_rows id next rows)
        ≡ (if str_eq id k then some next else select_state k rows)
  select-update id k next rows state known = elim (Bool-cases (str_eq id k)) [
    | inl same ↦ rw (same, ← (str_eq_iff id k).0 same) (select-update_self id next rows state known)
    | inr other ↦ rw other (select-update_other id k next rows other)
  ]

  pub table_store-KeepsIntents : KeepsIntents table_store
  unfolding table_reserve table_set_state
  table_store-KeepsIntents = record {
    reserve_new = λ intent s fresh. rw fresh (refl, λ k. select-append k intent s fresh);
    reserve_known = λ intent s state known. rw known;
    set_known = λ id next s state known.
        (update_rows id next s, rw known, λ k. select-update id k next s state known);
  }

-- The table after an update: as it was if the update raised.
abbrev pub kept : IntentTable → Option IntentTable → IntentTable
kept rows none = rows
kept rows (some rows') = rows'

module _ (workspace other : Uuid) (now later : Datetime) (apart : workspace ≢ other) where
  select-append_other :
      (k : String) (intent : OrderIntent) (rows : IntentTable)
      → select_state other later k (rows ++ intent_row workspace now intent ∷ [])
        ≡ select_state other later k rows
  unfolding select_state
  select-append_other k intent [] = ground (arith, str_eq_iff workspace other)
  select-append_other k intent (row ∷ rows) = ground (arith, select-append_other k intent rows)

  select-update_elsewhere :
      (k id : String) (next : ExecutionState) (rows : IntentTable)
      → select_state other later k (update_rows workspace now id next rows)
        ≡ select_state other later k rows
  unfolding select_state update_rows
  select-update_elsewhere k id next [] = refl
  select-update_elsewhere k id next (row ∷ rows) = ground (
    arith,
    str_eq_iff row.workspace_id workspace,
    str_eq_iff row.workspace_id other,
    select-update_elsewhere k id next rows,
  )

  -- The insert and the update of one workspace leave every state that another workspace reads as
  -- it was, also under the same client order id.
  pub table_isolated :
      (intent : OrderIntent) (id k : String) (next : ExecutionState) (rows : IntentTable)
      → (select_state other later k (table_reserve workspace now intent rows).1
          ≡ select_state other later k rows)
        × (select_state other later k (kept rows (table_set_state workspace now id next rows))
            ≡ select_state other later k rows)
  unfolding table_reserve table_set_state
  table_isolated intent id k next rows =
      let appended = select-append_other k intent rows in
      let updated = select-update_elsewhere k id next rows in (ground arith, ground arith)
