-- ===== src/Domain/Accounts.antt =====
-- packages/database/models.py: the rows of the accounts, and the transaction's view of their tables.
use alpha_desk.Base.{ℕ, Bool, Option, String, List}
use alpha_desk.Domain.Time.{Datetime}
use alpha_desk.Domain.Workflow.{Uuid}

pub record AppUser : Type 0 where
  pub user_id : Uuid
  pub auth_subject : String
  pub email : String
  pub is_admin : Bool
  pub created_at : Datetime
  pub last_seen_at : Datetime

pub record Workspace : Type 0 where
  pub workspace_id : Uuid
  pub owner_user_id : Uuid
  pub name : String
  pub workspace_type : String
  pub status : String
  pub scanner_enabled : Bool
  pub created_at : Datetime
  pub updated_at : Datetime

pub record Invitation : Type 0 where
  pub invitation_id : Uuid
  pub token_hash : String
  pub code_format : String
  pub comment : String
  pub max_uses : ℕ
  pub use_count : ℕ
  pub expires_at : Option Datetime
  pub disabled_at : Option Datetime
  pub created_by_user_id : Uuid
  pub created_at : Datetime

pub record Redemption : Type 0 where
  pub redemption_id : Uuid
  pub invitation_id : Uuid
  pub user_id : Uuid
  pub redeemed_at : Datetime

pub record WatchlistSymbol : Type 0 where
  pub workspace_id : Uuid
  pub symbol : String
  pub created_at : Datetime

pub record Audit : Type 0 where
  pub audit_id : Uuid
  pub workspace_id : Uuid
  pub actor_user_id : Uuid
  pub action : String
  pub detail : List (String × String)
  pub occurred_at : Datetime

-- The tables that the accounts' transactions read and write.
pub record Tables : Type 0 where
  pub users : List AppUser
  pub workspaces : List Workspace
  pub invitations : List Invitation
  pub redemptions : List Redemption
  pub watchlist : List WatchlistSymbol
  pub audits : List Audit
