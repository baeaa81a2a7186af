-- ===== src/Auth/Registration.antt =====
-- packages/auth/registration.py, and `SupabaseAdminAuth.create_user` of supabase_admin.py: an account
-- is created by an invitation, with an identity of the provider and rows of the database.
pub mod Outcome
pub mod Uses
pub mod History
use alpha_desk.Base.{
  ℕ, suc, ◌≡◌, Bool, true, false, not, ◌&&◌, ◌||◌, Option, none, some, String, List, [], ◌∷◌, ◌++◌,
  map, any, find_first, str_eq, if◌then◌else◌,
}
use alpha_desk.Base.Results.{Result, ok, err, ◌>>=◌, ◌>>◌, require}
use alpha_desk.Base.Texts.{lower, strip, is_empty}
use alpha_desk.Domain.Time.{Datetime}
use alpha_desk.Domain.Workflow.{Uuid}
use alpha_desk.Domain.Accounts.{AppUser, Workspace, Invitation, Redemption, Tables}
use alpha_desk.Auth.Invitations.{opens, available}
use alpha_desk.Auth.Workspaces.{Exception, create_connected_workspace}

pub record SupabaseIdentity : Type 0 where
  pub subject : String
  pub email : String

-- The answer to `POST /admin/users`: the fields that are read, if they are there.
pub record Document : Type 0 where
  pub id : Option String
  pub email : Option String

-- `SupabaseAdminError`, or another exception.
pub data AdminFailure : Type 0 where
  supabase_admin_error : AdminFailure
  other_exception : Exception → AdminFailure

-- The requests to the provider of identities, whose state is `S`.
pub record AdminAuth (S : Type 0) : Type 0 where
  pub post_user : S → String → String → Result AdminFailure Document × S
  pub delete_user : S → String → Result AdminFailure (Unit {0}) × S

abbrev pub or_empty : Option String → String
or_empty none = ""
or_empty (some s) = s

-- `create_user`, on the answer to the request.
abbrev pub identity_of :
    String → Result AdminFailure Document → Result AdminFailure SupabaseIdentity
identity_of email answer = do
  document ← answer
  let subject = strip (or_empty document.id)
  let returned_email = lower (strip (or_empty document.email))
  require (not (is_empty subject) && str_eq returned_email email) supabase_admin_error
  ok (record { subject = subject; email = returned_email })

-- What is fresh in a registration, and what the database raises in a statement behind the creation
-- of the identity, or in the commit, for a reason of its own.
pub record Fresh : Type 0 where
  pub user_id : Uuid
  pub workspace_id : Uuid
  pub audit_id : Uuid
  pub redemption_id : Uuid
  pub now : Datetime
  pub fault : Option Exception

abbrev pub new_user : Fresh → SupabaseIdentity → AppUser
new_user fresh identity = record {
  user_id = fresh.user_id;
  auth_subject = identity.subject;
  email = identity.email;
  is_admin = false;
  created_at = fresh.now;
  last_seen_at = fresh.now;
}

abbrev pub same_user : AppUser → AppUser → Bool
same_user row other =
    str_eq row.user_id other.user_id
    || (str_eq row.auth_subject other.auth_subject || str_eq row.email other.email)

abbrev pub new_redemption : Fresh → Uuid → Redemption
new_redemption fresh invitation = record {
  redemption_id = fresh.redemption_id;
  invitation_id = invitation;
  user_id = fresh.user_id;
  redeemed_at = fresh.now;
}

abbrev pub same_redemption : Redemption → Redemption → Bool
same_redemption row other =
    str_eq row.redemption_id other.redemption_id
    || (str_eq row.invitation_id other.invitation_id && str_eq row.user_id other.user_id)

-- `invitation.use_count += 1`: the update of the row with that primary key.
abbrev pub redeem : Uuid → List Invitation → List Invitation
redeem id [] = []
redeem id (row ∷ rows) =
    record row {
      use_count = if str_eq row.invitation_id id then suc row.use_count else row.use_count;
    }
    ∷ redeem id rows

abbrev pub raise_fault : Option Exception → Result Exception (Unit {0})
raise_fault none = ok tt
raise_fault (some e) = err e

abbrev pub is_taken : AppUser → Tables → Bool
is_taken user db = any (same_user user) db.users

abbrev pub is_redeemed : Redemption → Tables → Bool
is_redeemed redemption db = any (same_redemption redemption) db.redemptions

abbrev pub place : Fresh → SupabaseIdentity → Tables → Result Exception (Workspace × Tables)
place fresh identity db =
    let user = new_user fresh identity in
    create_connected_workspace fresh.workspace_id fresh.audit_id fresh.now user.user_id user.email
      user.user_id "INVITATION_CONNECTED_WORKSPACE_PROVISIONED"
      (record db { users = db.users ++ user ∷ [] })

abbrev pub with_redemption : Redemption → Tables → Tables
with_redemption redemption db = record db {
  redemptions = db.redemptions ++ redemption ∷ [];
  invitations = redeem redemption.invitation_id db.invitations;
}

abbrev pub record_redemption :
    Redemption → Option Exception → Workspace × Tables → Result Exception (Workspace × Tables)
record_redemption redemption fault (workspace, db) = do
  require (not (is_redeemed redemption db)) "IntegrityError"
  raise_fault fault
  ok (workspace, with_redemption redemption db)

-- The rest of the transaction, behind the creation of the identity.
unfoldable pub admit_user :
    Fresh → SupabaseIdentity → Invitation → Tables → Result Exception (Workspace × Tables)
admit_user fresh identity invitation db = do
  require (not (is_taken (new_user fresh identity) db)) "IntegrityError"
  placed ← place fresh identity db
  record_redemption (new_redemption fresh invitation.invitation_id) fresh.fault placed

-- `SupabaseAdminAuth.create_user`
unfoldable pub create_user :
    {S : Type 0} → AdminAuth S → String → String → S → Result AdminFailure SupabaseIdentity × S
create_user auth email password s =
    let (answer, s') = auth.post_user s email password in (identity_of email answer, s')

-- `RegistrationService`, over the provider's state.
module _ {S : Type 0} (auth : AdminAuth S) (hash : String → String)
    (admin_emails : List String) where
  abbrev pub Attempt : Type 0
  Attempt = Result Exception Workspace × Tables × S

  abbrev pub unavailable : Tables → S → Attempt
  unavailable db s = (err "RegistrationUnavailable", db, s)

  -- An exception rolls the transaction back, and then the identity is deleted again; whether the
  -- deletion succeeds is only logged.
  abbrev pub conclude :
      SupabaseIdentity → Tables → S → Result Exception (Workspace × Tables) → Attempt
  conclude identity db s (ok (workspace, db')) = (ok workspace, db', s)
  conclude identity db s (err e) = (err e, db, (auth.delete_user s identity.subject).1)

  abbrev pub with_identity :
      Fresh → Invitation → Tables → Result AdminFailure SupabaseIdentity × S → Attempt
  with_identity fresh invitation db (ok identity, s) =
      conclude identity db s (admit_user fresh identity invitation db)
  with_identity fresh invitation db (err supabase_admin_error, s) = unavailable db s
  with_identity fresh invitation db (err (other_exception e), s) = (err e, db, s)

  abbrev pub with_invitation : Fresh → String → String → Tables → S → Option Invitation → Attempt
  with_invitation fresh email password db s none = unavailable db s
  with_invitation fresh email password db s (some invitation) =
      if not (available invitation fresh.now) || any (λ user. str_eq user.email email) db.users
      then unavailable db s
      else with_identity fresh invitation db (create_user auth email password s)

  unfoldable pub register : Fresh → String → String → String → Tables → S → Attempt
  register fresh email password code db s =
      let normalized = lower (strip email) in
      if any (λ admin. str_eq admin normalized) admin_emails
      then unavailable db s
      else with_invitation fresh normalized password db s
          (find_first (opens hash code) db.invitations)
