-- ===== src/Broker/Projections.antt =====
-- packages/broker/projections.py: the copy of the broker's account, positions and orders, and the
-- status that says how far to trust it. This file has the protocol, what both stores promise, and
-- the in-memory store.
-- Of exceptions only the class name matters.
pub mod Table
pub mod TableLaws
pub mod Isolation
use alpha_desk.Base.{
  ℕ, suc, ◌+◌, ◌≡◌, ◌≢◌, ◌↔◌, ◌⊎◌, refl, ap, str_eq_self, Bool, true, false, Option, none, some,
  String, List, [], map, if◌then◌else◌, arith, inl, inr,
}
use alpha_desk.Base.Dict.{Dict, contains, insert, lookup-insert}
use alpha_desk.Base.Results.{Result, ok, err, ok-injective}
use alpha_desk.Domain.Time.{Datetime}
use alpha_desk.Domain.System.{BrokerState, not_configured, unknown, reconciled}
use alpha_desk.Domain.Broker.{
  BrokerAccount, BrokerPosition, BrokerOrder, BrokerTradeUpdate, ReconciliationSnapshot,
  BrokerSyncStatus,
}
use alpha_desk.Broker.Ids.{
  mem, symmetric_difference, symmetric_difference_zero, insert_all, keys, mem-keys,
  contains-insert_all,
}

pub record BrokerProjectionStore (S : Type 0) : Type 0 where
  pub mark_state : BrokerState → Option String → S → S
  pub set_stream_connected : Bool → S → S
  pub apply_reconciliation : ReconciliationSnapshot → S → Result String (ℕ × S)
  pub apply_trade_update : BrokerTradeUpdate → S → Result String S
  pub get_status : S → BrokerSyncStatus
  pub get_account : S → Option BrokerAccount
  pub list_positions : S → List BrokerPosition
  pub list_orders : S → List BrokerOrder

abbrev pub position_ids : ReconciliationSnapshot → List String
position_ids snapshot = map (λ p. p.asset_id) snapshot.positions

abbrev pub order_ids : ReconciliationSnapshot → List String
order_ids snapshot = map (λ o. o.broker_order_id) snapshot.open_orders

-- The status of a store that was never written.
abbrev pub initial_status : BrokerSyncStatus
initial_status = record {
  state = not_configured;
  last_reconciled_at = none;
  last_stream_event_at = none;
  stream_connected = false;
  generation = 0;
  divergence_count = 0;
  failure_reason = none;
}

-- Which positions and orders a store knows.
pub record Knows (S : Type 0) : Type 0 where
  pub has_position : String → S → Bool
  pub has_order : String → S → Bool

module _ {S : Type 0} (o : BrokerProjectionStore S) (knows : Knows S) where
  -- The broker wins: `s'` is what the snapshot says, and `n` tells whether `s` knew other things.
  pub record Wins (snapshot : ReconciliationSnapshot) (n : ℕ) (s s' : S) : Type 0 where
    pub state : (o.get_status s').state ≡ reconciled
    pub reconciled_at : (o.get_status s').last_reconciled_at ≡ some snapshot.reconciled_at
    pub failure : (o.get_status s').failure_reason ≡ none
    pub generation : (o.get_status s').generation ≡ suc (o.get_status s).generation
    pub divergence : (o.get_status s').divergence_count ≡ (o.get_status s).divergence_count + n
    pub stream : (o.get_status s').stream_connected ≡ (o.get_status s).stream_connected
    pub account : o.get_account s' ≡ some snapshot.account
    pub positions : (k : String) → knows.has_position k s' ≡ mem k (position_ids snapshot)
    pub orders : (k : String) → knows.has_order k s' ≡ mem k (order_ids snapshot)
    pub agreed : (n ≡ 0) ↔ (
        ((k : String) → knows.has_position k s ≡ mem k (position_ids snapshot))
        × ((k : String) → knows.has_order k s ≡ mem k (order_ids snapshot)))

  -- What the services rely on.
  pub record BrokerWins : Type 0 where
    pub mark_status :
        (state : BrokerState) (reason : Option String) (s : S)
        → o.get_status (o.mark_state state reason s)
          ≡ record (o.get_status s) { state = state; failure_reason = reason }
    pub mark_account :
        (state : BrokerState) (reason : Option String) (s : S)
        → o.get_account (o.mark_state state reason s) ≡ o.get_account s
    pub mark_knows :
        (state : BrokerState) (reason : Option String) (s : S) (k : String)
        → (knows.has_position k (o.mark_state state reason s) ≡ knows.has_position k s)
          × (knows.has_order k (o.mark_state state reason s) ≡ knows.has_order k s)
    pub stream_set :
        (connected : Bool) (s : S)
        → ((o.get_status (o.set_stream_connected connected s)).stream_connected ≡ connected)
          × (o.get_account (o.set_stream_connected connected s) ≡ o.get_account s)
    pub stream_up :
        (s : S) → (o.get_status (o.set_stream_connected true s)).state ≡ (o.get_status s).state
    pub stream_down : (s : S) → (o.get_status (o.set_stream_connected false s)).state ≢ reconciled
    pub apply_wins :
        (snapshot : ReconciliationSnapshot) (s : S) (n : ℕ) (s' : S)
        → o.apply_reconciliation snapshot s ≡ ok (n, s')
        → Wins snapshot n s s'
    pub update_keeps :
        (update : BrokerTradeUpdate) (s s' : S)
        → o.apply_trade_update update s ≡ ok s'
        → ((o.get_status s').state ≡ (o.get_status s).state)
          × ((o.get_status s').stream_connected ≡ true)
          × ((o.get_status s').last_stream_event_at ≡ some update.occurred_at)
          × (knows.has_order update.order.broker_order_id s' ≡ true)

-- `MemoryBrokerProjectionStore`
pub record Memory : Type 0 where
  pub status : BrokerSyncStatus
  pub account : Option BrokerAccount
  pub positions : Dict BrokerPosition
  pub orders : Dict BrokerOrder

abbrev pub initial_memory : Memory
initial_memory = record { status = initial_status; account = none; positions = []; orders = [] }

unfoldable pub memory_mark_state : BrokerState → Option String → Memory → Memory
memory_mark_state state reason s = record s {
  status = record s.status { state = state; failure_reason = reason };
}

unfoldable pub memory_set_stream : Bool → Memory → Memory
memory_set_stream connected s =
    let next_state = if connected then s.status.state else unknown in
    record s { status = record s.status { stream_connected = connected; state = next_state } }

unfoldable pub memory_reconciliation : ReconciliationSnapshot → Memory → ℕ × Memory
memory_reconciliation snapshot s =
    let divergence =
      symmetric_difference (keys s.positions) (position_ids snapshot)
      + symmetric_difference (keys s.orders) (order_ids snapshot) in
    (
      divergence,
      record {
        account = some snapshot.account;
        positions = insert_all (λ p. p.asset_id) snapshot.positions [];
        orders = insert_all (λ order. order.broker_order_id) snapshot.open_orders [];
        status = record {
          state = reconciled;
          last_reconciled_at = some snapshot.reconciled_at;
          last_stream_event_at = none;
          stream_connected = s.status.stream_connected;
          generation = suc s.status.generation;
          divergence_count = s.status.divergence_count + divergence;
          failure_reason = none;
        };
      },
    )

pub memory_trade_update : BrokerTradeUpdate → Memory → Memory
memory_trade_update update s = record s {
  orders = insert update.order.broker_order_id update.order s.orders;
  status = record s.status {
    last_stream_event_at = some update.occurred_at;
    stream_connected = true;
  };
}

abbrev pub values : {A : Type 0} → Dict A → List A
values d = map (λ e. e.1) d

abbrev pub memory_projections : BrokerProjectionStore Memory
memory_projections = record {
  mark_state = memory_mark_state;
  set_stream_connected = memory_set_stream;
  apply_reconciliation = λ snapshot s. ok (memory_reconciliation snapshot s);
  apply_trade_update = λ update s. ok (memory_trade_update update s);
  get_status = λ s. s.status;
  get_account = λ s. s.account;
  list_positions = λ s. values s.positions;
  list_orders = λ s. values s.orders;
}

abbrev pub memory_knows : Knows Memory
memory_knows = record {
  has_position = λ k s. contains k s.positions;
  has_order = λ k s. contains k s.orders;
}

agreed_keys :
    {A : Type 0} (d : Dict A) (ids : List String)
    → (symmetric_difference (keys d) ids ≡ 0) ↔ ((k : String) → contains k d ≡ mem k ids)
agreed_keys d ids =
    let (l, r) = symmetric_difference_zero (keys d) ids in
    (λ h k. rw (← mem-keys k d) (l h k), λ h. r (λ k. rw (mem-keys k d) (h k)))

-- Two counts are zero together.
pub zero_sum : {P Q : Type 0} (m n : ℕ) → (m ≡ 0) ↔ P → (n ≡ 0) ↔ Q → (m + n ≡ 0) ↔ (P × Q)
zero_sum m n (pl, pr) (ql, qr) = (
  λ h. (pl (omega arith), ql (omega arith)),
  λ h. let p = pr h.0 in let q = qr h.1 in omega arith,
)

memory-Wins :
    (snapshot : ReconciliationSnapshot) (s : Memory)
    → Wins memory_projections memory_knows snapshot
        (memory_reconciliation snapshot s).0
        s
        (memory_reconciliation snapshot s).1
unfolding memory_reconciliation
memory-Wins snapshot s = record {
  state = refl;
  reconciled_at = refl;
  failure = refl;
  generation = refl;
  divergence = refl;
  stream = refl;
  account = refl;
  positions =
      λ k. rw (contains-insert_all (λ p. p.asset_id) k snapshot.positions []) (ground arith);
  orders = λ k.
      rw (contains-insert_all (λ order. order.broker_order_id) k snapshot.open_orders [])
        (ground arith);
  agreed =
      zero_sum _ _ (agreed_keys s.positions (position_ids snapshot))
        (agreed_keys s.orders (order_ids snapshot));
}

pub memory_projections-BrokerWins : BrokerWins memory_projections memory_knows
unfolding memory_mark_state memory_set_stream memory_trade_update
memory_projections-BrokerWins = record {
  mark_status = λ state reason s. refl;
  mark_account = λ state reason s. refl;
  mark_knows = λ state reason s k. (refl, refl);
  stream_set = λ connected s. (refl, refl);
  stream_up = λ s. refl;
  stream_down = λ s h. cc;
  apply_wins = λ snapshot s n s' h.
      let e = ok-injective (memory_reconciliation snapshot s) (n, s') h in
      rw (← ap (λ p. p.0) e, ← ap (λ p. p.1) e) (memory-Wins snapshot s);
  update_keeps = λ update s s' h.
      let e = ok-injective (memory_trade_update update s) s' h in
      rw (← e) (
        refl,
        refl,
        refl,
        rw
            (
              lookup-insert update.order.broker_order_id update.order.broker_order_id update.order
                  s.orders,
              str_eq_self update.order.broker_order_id,
            )
            refl,
      );
}
