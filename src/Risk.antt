-- ===== src/Risk.antt =====
-- packages/risk: the checks between a candidate structure and an order.
pub mod Engine
