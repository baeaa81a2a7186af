-- ===== src/Pipeline.antt =====
-- The stages of the desk put together: packages/options/engine.py, packages/risk/engine.py and
-- packages/execution/intents.py.
mod Examples
use alpha_desk.Base.Integers.{◌+ℤ◌, ◌*ℤ◌}
