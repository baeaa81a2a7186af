-- ===== src/Auth/Access.antt =====
-- packages/auth/dependencies.py and packages/auth/jwt.py: who a request comes from, and the
-- workspace that it may use. `decode` stands for the verification of a token by the JWT library.
pub mod Sync
pub mod Tenants
use alpha_desk.Base.{
  ℕ, ◌≡◌, Bool, true, false, not, ◌&&◌, ◌||◌, Option, none, some, String, List, [], ◌∷◌, ◌++◌, map,
  any, find_first, str_eq, if◌then◌else◌,
}
use alpha_desk.Base.Results.{Result, ok, err, ◌>>=◌, ◌>>◌, require}
use alpha_desk.Base.Texts.{lower, strip, is_empty}
use alpha_desk.Domain.Time.{Datetime}
use alpha_desk.Domain.Workflow.{Uuid}
use alpha_desk.Domain.Accounts.{AppUser, Workspace, Tables}
use alpha_desk.Auth.Workspaces.{owned_by}
use alpha_desk.Auth.Registration.{or_empty, same_user}

-- `HTTPException`, or another exception.
pub data HttpFailure : Type 0 where
  http_exception : ℕ → String → HttpFailure
  raised : String → HttpFailure

-- The claims that are read, of a token that the library accepts.
pub record Claims : Type 0 where
  pub sub : Option String
  pub email : Option String

pub record VerifiedIdentity : Type 0 where
  pub subject : String
  pub email : String

-- `SupabaseJWTVerifier.verify`; the error is the message of an `AuthenticationError`.
unfoldable pub verify : (String → Option Claims) → String → Result String VerifiedIdentity
verify decode token = elim (decode token) [
  | none ↦ err "Invalid or expired access token"
  | some claims ↦ do
    let subject = or_empty claims.sub
    let email = lower (strip (or_empty claims.email))
    require (not (is_empty subject) && not (is_empty email))
        "Authenticated identity is missing subject or email"
    ok (record { subject = subject; email = email })
]

pub record AuthPrincipal : Type 0 where
  pub user_id : Uuid
  pub auth_subject : String
  pub email : String
  pub is_admin : Bool

pub record WorkspaceContext : Type 0 where
  pub principal : AuthPrincipal
  pub workspace_id : Uuid
  pub status : String

abbrev pub principal_of : AppUser → AuthPrincipal
principal_of row = record {
  user_id = row.user_id;
  auth_subject = row.auth_subject;
  email = row.email;
  is_admin = row.is_admin;
}

abbrev pub first_seen : Uuid → Datetime → Bool → VerifiedIdentity → AppUser
first_seen id now bootstrap identity = record {
  user_id = id;
  auth_subject = identity.subject;
  email = identity.email;
  is_admin = bootstrap;
  created_at = now;
  last_seen_at = now;
}

abbrev pub seen_again : Datetime → Bool → VerifiedIdentity → AppUser → AppUser
seen_again now bootstrap identity row = record row {
  email = identity.email;
  last_seen_at = now;
  is_admin = if bootstrap then true else row.is_admin;
}

-- The update of a row, by its primary key.
abbrev pub write_user : AppUser → AppUser → AppUser
write_user row other = record other {
  email = if str_eq other.user_id row.user_id then row.email else other.email;
  last_seen_at = if str_eq other.user_id row.user_id then row.last_seen_at else other.last_seen_at;
  is_admin = if str_eq other.user_id row.user_id then row.is_admin else other.is_admin;
}

-- Another user has the address, which is a unique key.
abbrev pub email_is_taken : AppUser → List AppUser → Bool
email_is_taken row =
    any (λ other. not (str_eq other.user_id row.user_id) && str_eq other.email row.email)

abbrev pub sync_beside :
    Uuid
    → Datetime
    → Bool
    → VerifiedIdentity
    → Tables
    → Option AppUser
    → Result HttpFailure (AuthPrincipal × Tables)
sync_beside id now bootstrap identity db none =
    let row = first_seen id now bootstrap identity in
    do
      require (not (any (same_user row) db.users)) (raised "IntegrityError")
      ok (principal_of row, record db { users = db.users ++ row ∷ [] })
sync_beside id now bootstrap identity db (some found) =
    let row = seen_again now bootstrap identity found in
    do
      require (not (email_is_taken row db.users)) (raised "IntegrityError")
      ok (principal_of row, record db { users = map (write_user row) db.users })

module _ (decode : String → Option Claims) (admin_emails : List String) where
  abbrev pub is_bootstrap_admin : VerifiedIdentity → Bool
  is_bootstrap_admin identity = any (λ email. str_eq email identity.email) admin_emails

  -- `_sync_user`, where there is a database. A new user's identifier and the time are arguments.
  unfoldable pub sync_user :
      Uuid → Datetime → VerifiedIdentity → Tables → Result HttpFailure (AuthPrincipal × Tables)
  sync_user id now identity db =
      sync_beside id now (is_bootstrap_admin identity) identity db
        (find_first (λ row. str_eq row.auth_subject identity.subject) db.users)

  abbrev pub unauthorized : {A : Type 0} → Result String A → Result HttpFailure A
  unauthorized (ok a) = ok a
  unauthorized (err message) = err (http_exception 401 message)

  -- A transaction that raises leaves the tables as they are.
  abbrev pub settle :
      Tables
      → Result HttpFailure (AuthPrincipal × Tables)
      → Result HttpFailure AuthPrincipal × Tables
  settle db (ok (principal, db')) = (ok principal, db')
  settle db (err e) = (err e, db)

  -- `require_principal`: the credentials of a request are a scheme and a token.
  unfoldable pub require_principal :
      Uuid
      → Datetime
      → Option (String × String)
      → Tables
      → Result HttpFailure AuthPrincipal × Tables
  require_principal id now none db = (err (http_exception 401 "Authentication required"), db)
  require_principal id now (some (scheme, token)) db = settle db (do
    require (str_eq (lower scheme) "bearer") (http_exception 401 "Authentication required")
    identity ← unauthorized (verify decode token)
    sync_user id now identity db)

  unfoldable pub require_admin :
      Uuid
      → Datetime
      → Option (String × String)
      → Tables
      → Result HttpFailure AuthPrincipal × Tables
  require_admin id now credentials db =
      let (answer, db') = require_principal id now credentials db in
      (
        (do
          principal ← answer
          require principal.is_admin (http_exception 403 "Administrator access required")
          ok principal),
        db',
      )

  abbrev pub with_workspace : AuthPrincipal → Option Workspace → Result HttpFailure WorkspaceContext
  with_workspace principal none =
      err (http_exception 403 "No Connected Paper Workspace has been provisioned for this account.")
  with_workspace principal (some workspace) = do
    require (not (str_eq workspace.status "SUSPENDED"))
        (http_exception 423 "Connected workspace is suspended")
    ok (record {
      principal = principal;
      workspace_id = workspace.workspace_id;
      status = workspace.status;
    })

  abbrev pub own_workspace : Tables → AuthPrincipal → Result HttpFailure WorkspaceContext
  own_workspace db principal =
      with_workspace principal (find_first (owned_by principal.user_id) db.workspaces)

  unfoldable pub require_workspace :
      Uuid
      → Datetime
      → Option (String × String)
      → Tables
      → Result HttpFailure WorkspaceContext × Tables
  require_workspace id now credentials db =
      let (answer, db') = require_principal id now credentials db in
      (answer >>= own_workspace db', db')
