-- ===== src/Security.antt =====
-- packages/security: credentials of a workspace, encrypted in a table.
pub mod Credentials
pub mod Store
mod Examples
