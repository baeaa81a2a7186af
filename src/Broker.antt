-- ===== src/Broker.antt =====
-- packages/broker: what is known of the broker, and when it is known well enough to trade.
pub mod Ids
pub mod Projections
pub mod Reconciliation
mod Examples
