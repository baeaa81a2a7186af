-- ===== src/Execution.antt =====
-- packages/execution: from a risk decision to an order at the broker.
pub mod Intents
pub mod Engine
