-- ===== src/Broker/Projections/Isolation.antt =====
-- That `PostgresBrokerProjectionStore` (packages/broker/projections.py) keeps the workspaces apart.
use alpha_desk.Base.{
  ◌≡◌, ◌≢◌, refl, Bool, Option, String, List, [], ◌∷◌, ◌++◌, str_eq_iff, arith, Bool-cases, inl,
  inr,
}
use alpha_desk.Base.Dict.{lookup-insert}
use alpha_desk.Base.Results.{Result, ok, err}
use alpha_desk.Domain.System.{BrokerState}
use alpha_desk.Domain.Broker.{
  BrokerOrder, BrokerTradeUpdate, ReconciliationSnapshot, BrokerSyncStatus,
}
use alpha_desk.Domain.Workflow.{Uuid}
use alpha_desk.Broker.Projections.Table.{
  Row, Tables, own, without_own, rows_of, sync_status, write_status, table_mark_state,
  table_set_stream, is_insertable, replaced, table_reconciliation, upsert_order, is_taken,
  table_trade_update, updated,
}

-- The tables after a transaction: as they were if it raised.
abbrev pub committed : {A : Type 0} → (A → Tables) → Tables → Result String A → Tables
committed f s (ok a) = f a
committed f s (err _) = s

module _ (w other : Uuid) (apart : w ≢ other) where
  own_elsewhere :
      {A : Type 0} (rows : List (Row A)) (xs : List A)
      → own other (without_own w rows ++ rows_of w xs) ≡ own other rows
  unfolding own without_own rows_of
  own_elsewhere [] [] = refl
  own_elsewhere [] (x ∷ xs) = ground (arith, str_eq_iff w other, own_elsewhere [] xs)
  own_elsewhere (row ∷ rows) xs = ground (
    arith,
    str_eq_iff row.workspace_id w,
    str_eq_iff row.workspace_id other,
    own_elsewhere rows xs,
  )

  own-upsert_elsewhere :
      (order : BrokerOrder) (rows : List (Row BrokerOrder))
      → own other (upsert_order w order rows) ≡ own other rows
  unfolding own upsert_order
  own-upsert_elsewhere order [] = ground (arith, str_eq_iff w other)
  own-upsert_elsewhere order (row ∷ rows) = ground (
    arith,
    str_eq_iff row.workspace_id w,
    str_eq_iff row.workspace_id other,
    own-upsert_elsewhere order rows,
  )

  sync-write_elsewhere :
      (status : BrokerSyncStatus) (s : Tables)
      → sync_status other (write_status w status s) ≡ sync_status other s
  unfolding sync_status write_status
  sync-write_elsewhere status s =
      rw (lookup-insert w other status s.sync_state) (ground (arith, str_eq_iff w other))

  -- What another workspace sees of the tables.
  abbrev pub SameView : Tables → Tables → Type 0
  SameView s s' =
      (sync_status other s' ≡ sync_status other s)
      × (own other s'.accounts ≡ own other s.accounts)
      × (own other s'.positions ≡ own other s.positions)
      × (own other s'.orders ≡ own other s.orders)

  reconciliation_isolated :
      (snapshot : ReconciliationSnapshot) (s : Tables)
      → SameView s (committed (λ p. p.1) s (table_reconciliation w snapshot s))
  unfolding table_reconciliation replaced write_status sync_status
  reconciliation_isolated snapshot s = elim (Bool-cases (is_insertable w snapshot)) [
    | inl fine ↦ rw fine (
      sync-write_elsewhere _ s,
      own_elsewhere s.accounts (snapshot.account ∷ []),
      own_elsewhere s.positions snapshot.positions,
      own_elsewhere s.orders snapshot.open_orders,
    )
    | inr broken ↦ rw broken (refl, refl, refl, refl)
  ]

  update_isolated :
      (update : BrokerTradeUpdate) (s : Tables)
      → SameView s (committed (λ t. t) s (table_trade_update w update s))
  unfolding table_trade_update updated write_status sync_status
  update_isolated update s = elim (Bool-cases (is_taken w update.order s)) [
    | inl taken ↦ rw taken (refl, refl, refl, refl)
    | inr free ↦
        rw free (sync-write_elsewhere _ s, refl, refl, own-upsert_elsewhere update.order s.orders)
  ]

  -- No operation of a workspace's store changes the status, the account, the positions or the
  -- orders that another workspace sees, whether it succeeds or raises.
  pub table_projections_isolated :
      (s : Tables) (state : BrokerState) (reason : Option String) (connected : Bool)
      (snapshot : ReconciliationSnapshot) (update : BrokerTradeUpdate)
      → SameView s (table_mark_state w state reason s)
        × SameView s (table_set_stream w connected s)
        × SameView s (committed (λ p. p.1) s (table_reconciliation w snapshot s))
        × SameView s (committed (λ t. t) s (table_trade_update w update s))
  unfolding table_mark_state table_set_stream write_status
  table_projections_isolated s state reason connected snapshot update = (
    (sync-write_elsewhere _ s, refl, refl, refl),
    (sync-write_elsewhere _ s, refl, refl, refl),
    reconciliation_isolated snapshot s,
    update_isolated update s,
  )
