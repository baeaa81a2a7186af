-- ===== src/Strategy.antt =====
-- packages/strategy: which trades are proposed, and in which order structures are preferred.
pub mod Volatility
pub mod Catalyst
pub mod Scoring
pub mod Ranking
pub mod Protection
mod Examples
mod Scores
