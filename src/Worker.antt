-- ===== src/Worker.antt =====
-- apps/worker: the connections of the workspaces, and the scanner.
pub mod Connections
pub mod Runtime
pub mod Scanner
mod Examples
