-- ===== src/Guardian.antt =====
-- packages/guardian: the supervisor that halts trading, the record of its halts, and the gate that
-- the execution engine asks.
pub mod Engine
pub mod Store
pub mod Gate
mod Examples
