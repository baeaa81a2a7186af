-- ===== src/Lab.antt =====
-- packages/lab: evidence from history that does not look ahead.
pub mod Evidence
mod Examples
