-- ===== src/Connected.antt =====
-- packages/connected: opportunities from the market data of a connected workspace.
pub mod Records
pub mod Selection
pub mod Opportunities
