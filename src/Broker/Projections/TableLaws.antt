-- ===== src/Broker/Projections/TableLaws.antt =====
-- That `PostgresBrokerProjectionStore` (packages/broker/projections.py) keeps what the services
-- rely on.
use alpha_desk.Base.{◌≡◌, ◌↔◌, refl, String, List, str_eq_self}
use alpha_desk.Base.Dict.{Dict, lookup-insert}
use alpha_desk.Domain.Broker.{BrokerSyncStatus}
use alpha_desk.Domain.Workflow.{Uuid}
use alpha_desk.Broker.Ids.{mem, symmetric_difference, symmetric_difference_zero}
use alpha_desk.Broker.Projections.Table.{Tables, sync_status, write_status}

module _ (w : Uuid) where
  sync-write :
      (status : BrokerSyncStatus) (s : Tables) → sync_status w (write_status w status s) ≡ status
  unfolding sync_status write_status
  sync-write status s = rw (lookup-insert w w status s.sync_state, str_eq_self w) refl

  agreed_ids :
      (a b : List String) → (symmetric_difference a b ≡ 0) ↔ ((k : String) → mem k a ≡ mem k b)
  agreed_ids a b = symmetric_difference_zero a b
