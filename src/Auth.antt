-- ===== src/Auth.antt =====
-- packages/auth: invitations, workspaces, registration, and who may use a workspace.
pub mod Invitations
pub mod Workspaces
pub mod Registration
pub mod Access
mod Examples
