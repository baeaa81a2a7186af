-- ===== src/Auth/Workspaces.antt =====
-- packages/auth/workspaces.py: the workspace of an owner, with its watchlist and its audit record.
pub mod Provisioning
use Prim.Native.Char.{Char, code}
use alpha_desk.Base.{
  ◌≡◌, Bool, true, false, not, ◌||◌, Option, none, some, String, List, [], ◌∷◌, ◌++◌, map, any,
  find_first, str_eq, ◌==◌, if◌then◌else◌,
}
use alpha_desk.Base.Results.{Result, ok, err, ◌>>=◌, ◌>>◌, require}
use alpha_desk.Domain.Time.{Datetime}
use alpha_desk.Domain.Workflow.{Uuid, ◌⧺◌}
use alpha_desk.Domain.Accounts.{AppUser, Workspace, WatchlistSymbol, Audit, Tables}
use alpha_desk.Auth.Invitations.{default_watchlist}

-- `email.split('@', 1)[0]`
abbrev pub local_part : String → String
local_part String.[] = String.[]
local_part (String.◌∷◌ c s) =
    let rest = local_part s in if code c == b'@' then String.[] else String.◌∷◌ c rest

-- The names of the exceptions.
abbrev pub Exception : Type 0
Exception = String

abbrev pub owned_by : Uuid → Workspace → Bool
owned_by user row = str_eq row.owner_user_id user

abbrev pub same_workspace : Workspace → Workspace → Bool
same_workspace row other =
    str_eq row.workspace_id other.workspace_id || str_eq row.owner_user_id other.owner_user_id

abbrev pub new_workspace : Uuid → Datetime → Uuid → String → Workspace
new_workspace id now owner email = record {
  workspace_id = id;
  owner_user_id = owner;
  name = local_part email ⧺ "'s paper desk";
  workspace_type = "CONNECTED_PAPER";
  status = "ONBOARDING";
  scanner_enabled = false;
  created_at = now;
  updated_at = now;
}

abbrev pub new_watchlist : Uuid → Datetime → List WatchlistSymbol
new_watchlist id now =
    map (λ symbol. record { workspace_id = id; symbol = symbol; created_at = now })
      default_watchlist

abbrev pub new_audit : Uuid → Uuid → Uuid → String → Datetime → Audit
new_audit id workspace actor action now = record {
  audit_id = id;
  workspace_id = workspace;
  actor_user_id = actor;
  action = action;
  detail = ("status", "ONBOARDING") ∷ ("watchlist_count", "7") ∷ [];
  occurred_at = now;
}

-- `create_connected_workspace` inside a transaction. The workspace's identifier, the audit
-- record's, and the current time are arguments. Its identifier and its owner are unique keys.
unfoldable pub create_connected_workspace :
    Uuid
    → Uuid
    → Datetime
    → Uuid
    → String
    → Uuid
    → String
    → Tables
    → Result Exception (Workspace × Tables)
create_connected_workspace id audit_id now owner email actor action db =
    let workspace = new_workspace id now owner email in
    do
      require (not (any (same_workspace workspace) db.workspaces)) "IntegrityError"
      ok (
        workspace,
        record db {
          workspaces = db.workspaces ++ workspace ∷ [];
          watchlist = db.watchlist ++ new_watchlist id now;
          audits = db.audits ++ new_audit audit_id id actor action now ∷ [];
        },
      )

pub record WorkspaceProvisioningResult : Type 0 where
  pub workspace : Workspace
  pub created : Bool

abbrev pub provision_beside :
    Uuid
    → Uuid
    → Datetime
    → AppUser
    → Tables
    → Option Workspace
    → Result Exception (WorkspaceProvisioningResult × Tables)
provision_beside id audit_id now admin db (some existing) =
    ok (record { workspace = existing; created = false }, db)
provision_beside id audit_id now admin db none = do
  (workspace, db') ←
      create_connected_workspace id audit_id now admin.user_id admin.email admin.user_id
        "ADMIN_CONNECTED_WORKSPACE_PROVISIONED" db
  ok (record { workspace = workspace; created = true }, db')

abbrev pub provision_for :
    Uuid
    → Uuid
    → Datetime
    → Uuid
    → Tables
    → Option AppUser
    → Result Exception (WorkspaceProvisioningResult × Tables)
provision_for id audit_id now user db none = err "PermissionError"
provision_for id audit_id now user db (some admin) = do
  require admin.is_admin "PermissionError"
  provision_beside id audit_id now admin db (find_first (owned_by user) db.workspaces)

-- `AdminWorkspaceProvisioningService.provision`: a transaction, so that tables change only with `ok`.
unfoldable pub provision :
    Uuid → Uuid → Datetime → Uuid → Tables → Result Exception (WorkspaceProvisioningResult × Tables)
provision id audit_id now user db =
    provision_for id audit_id now user db (find_first (λ row. str_eq row.user_id user) db.users)
