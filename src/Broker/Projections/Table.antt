-- ===== src/Broker/Projections/Table.antt =====
-- `PostgresBrokerProjectionStore` (packages/broker/projections.py): four tables, of which a store
-- sees the rows of its workspace. A statement that breaks a primary key or a unique constraint
-- raises and rolls its transaction back.
use alpha_desk.Base.{
  ℕ, suc, ◌+◌, Bool, true, not, ◌&&◌, Option, none, some, String, List, [], ◌∷◌, ◌++◌, map, any,
  if◌then◌else◌, str_eq,
}
use alpha_desk.Base.Sorting.{order_by}
use alpha_desk.Base.Dict.{Dict, lookup, insert}
use alpha_desk.Base.Results.{Result, ok, err}
use alpha_desk.Domain.Time.{is_at_most}
use alpha_desk.Domain.System.{BrokerState, unknown, reconciled, is_reconciled}
use alpha_desk.Domain.Broker.{
  BrokerAccount, BrokerPosition, BrokerOrder, BrokerTradeUpdate, ReconciliationSnapshot,
  BrokerSyncStatus,
}
use alpha_desk.Domain.Workflow.{Uuid}
use alpha_desk.Broker.Ids.{mem, symmetric_difference, is_unique}
use alpha_desk.Broker.Projections.{
  BrokerProjectionStore, Knows, position_ids, order_ids, initial_status,
}

-- A row of a table: the workspace beside the columns of the entry.
pub record Row (A : Type 0) : Type 0 where
  pub workspace_id : Uuid
  pub entry : A

pub record Tables : Type 0 where
  pub sync_state : Dict BrokerSyncStatus
  pub accounts : List (Row BrokerAccount)
  pub positions : List (Row BrokerPosition)
  pub orders : List (Row BrokerOrder)

abbrev pub or_initial : Option BrokerSyncStatus → BrokerSyncStatus
or_initial none = initial_status
or_initial (some status) = status

abbrev pub head : {A : Type 0} → List A → Option A
head [] = none
head (x ∷ _) = some x

module _ (workspace : Uuid) where
  abbrev pub is_own : {A : Type 0} → Row A → Bool
  is_own row = str_eq row.workspace_id workspace

  -- `select(...).where(workspace_id == ...)`
  unfoldable pub own : {A : Type 0} → List (Row A) → List A
  own [] = []
  own (row ∷ rows) = if is_own row then row.entry ∷ own rows else own rows

  -- `delete(...).where(workspace_id == ...)`
  unfoldable pub without_own : {A : Type 0} → List (Row A) → List (Row A)
  without_own [] = []
  without_own (row ∷ rows) = if is_own row then without_own rows else row ∷ without_own rows

  unfoldable pub rows_of : {A : Type 0} → List A → List (Row A)
  rows_of [] = []
  rows_of (x ∷ xs) = record { workspace_id = workspace; entry = x } ∷ rows_of xs

  -- `_state_for_update`, which inserts the initial status, and `get_status`, which shows it.
  unfoldable pub sync_status : Tables → BrokerSyncStatus
  sync_status s = or_initial (lookup workspace s.sync_state)

  unfoldable pub write_status : BrokerSyncStatus → Tables → Tables
  write_status status s = record s { sync_state = insert workspace status s.sync_state }

  unfoldable pub table_mark_state : BrokerState → Option String → Tables → Tables
  table_mark_state state reason s =
      write_status (record (sync_status s) { state = state; failure_reason = reason }) s

  unfoldable pub with_stream : Bool → BrokerSyncStatus → BrokerSyncStatus
  with_stream connected status =
      if not connected && is_reconciled status.state
      then record status {
        stream_connected = connected;
        state = unknown;
        failure_reason = some "Alpaca trade_updates stream disconnected.";
      }
      else record status { stream_connected = connected }

  unfoldable pub table_set_stream : Bool → Tables → Tables
  table_set_stream connected s = write_status (with_stream connected (sync_status s)) s

  abbrev pub own_position_ids : Tables → List String
  own_position_ids s = map (λ p. p.asset_id) (own s.positions)

  abbrev pub own_order_ids : Tables → List String
  own_order_ids s = map (λ o. o.broker_order_id) (own s.orders)

  -- What the primary keys and the unique client order id ask of the new rows.
  abbrev pub is_insertable : ReconciliationSnapshot → Bool
  is_insertable snapshot =
      is_unique (position_ids snapshot)
      && is_unique (order_ids snapshot)
      && is_unique (map (λ o. o.client_order_id) snapshot.open_orders)

  unfoldable pub divergence_of : ReconciliationSnapshot → Tables → ℕ
  divergence_of snapshot s =
      symmetric_difference (own_position_ids s) (position_ids snapshot)
      + symmetric_difference (own_order_ids s) (order_ids snapshot)

  unfoldable pub replaced : ReconciliationSnapshot → Tables → Tables
  replaced snapshot s =
      let status = sync_status s in
      write_status
        (record status {
          state = reconciled;
          last_reconciled_at = some snapshot.reconciled_at;
          generation = suc status.generation;
          divergence_count = status.divergence_count + divergence_of snapshot s;
          failure_reason = none;
        })
        (record s {
          accounts = without_own s.accounts ++ rows_of (snapshot.account ∷ []);
          positions = without_own s.positions ++ rows_of snapshot.positions;
          orders = without_own s.orders ++ rows_of snapshot.open_orders;
        })

  unfoldable pub table_reconciliation : ReconciliationSnapshot → Tables → Result String (ℕ × Tables)
  table_reconciliation snapshot s =
      if is_insertable snapshot
      then ok (divergence_of snapshot s, replaced snapshot s)
      else err "IntegrityError"

  -- The insert with `on_conflict_do_update`.
  unfoldable pub upsert_order : BrokerOrder → List (Row BrokerOrder) → List (Row BrokerOrder)
  upsert_order order [] = record { workspace_id = workspace; entry = order } ∷ []
  upsert_order order (row ∷ rows) =
      let rest = upsert_order order rows in
      if is_own row && str_eq row.entry.broker_order_id order.broker_order_id
      then record row { entry = order } ∷ rows
      else row ∷ rest

  -- Another order of the workspace has the client order id.
  abbrev pub is_taken : BrokerOrder → Tables → Bool
  is_taken order s =
      any
        (λ other.
          str_eq other.client_order_id order.client_order_id
          && not (str_eq other.broker_order_id order.broker_order_id))
        (own s.orders)

  unfoldable pub updated : BrokerTradeUpdate → Tables → Tables
  updated update s =
      write_status
        (record (sync_status s) {
          last_stream_event_at = some update.occurred_at;
          stream_connected = true;
        })
        (record s { orders = upsert_order update.order s.orders })

  unfoldable pub table_trade_update : BrokerTradeUpdate → Tables → Result String Tables
  table_trade_update update s =
      if is_taken update.order s then err "IntegrityError" else ok (updated update s)

  unfoldable pub table_account : Tables → Option BrokerAccount
  table_account s = head (own s.accounts)

  -- `symbol_leq` is the database's order of texts.
  pub table_positions : (String → String → Bool) → Tables → List BrokerPosition
  table_positions symbol_leq s = order_by (λ p q. symbol_leq p.symbol q.symbol) (own s.positions)

  pub table_orders : Tables → List BrokerOrder
  table_orders s = order_by (λ a b. is_at_most b.created_at a.created_at) (own s.orders)

  abbrev pub table_projections : (String → String → Bool) → BrokerProjectionStore Tables
  table_projections symbol_leq = record {
    mark_state = table_mark_state;
    set_stream_connected = table_set_stream;
    apply_reconciliation = table_reconciliation;
    apply_trade_update = table_trade_update;
    get_status = sync_status;
    get_account = table_account;
    list_positions = table_positions symbol_leq;
    list_orders = table_orders;
  }

  abbrev pub table_knows : Knows Tables
  table_knows = record {
    has_position = λ k s. mem k (own_position_ids s);
    has_order = λ k s. mem k (own_order_ids s);
  }
