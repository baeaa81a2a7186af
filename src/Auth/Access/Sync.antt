-- ===== src/Auth/Access/Sync.antt =====
-- What `_sync_user` (packages/auth/dependencies.py) does to the tables: keys stay keys, and the
-- principal is a user that is there.
use alpha_desk.Base.{
  ◌≡◌, refl, ap, ◌∙◌, subst, Bool, false, not, Option, none, some, String, List, [], ◌∷◌, ◌++◌, map,
  any, find_first, str_eq, str_eq_sym, or-neither, not-true,
}
use alpha_desk.Base.Keys.{
  has_key, IsKeyed, Has, Has-append, Has-last, find_first-Has, Has-map, IsKeyed-map, IsKeyed-append,
}
use alpha_desk.Base.Results.{Result, ok, err, require-ok, ok-injective, err≢ok}
use alpha_desk.Domain.Time.{Datetime}
use alpha_desk.Domain.Workflow.{Uuid}
use alpha_desk.Domain.Accounts.{AppUser, Workspace, Tables}
use alpha_desk.Auth.Registration.{same_user}
use alpha_desk.Auth.Access.{
  HttpFailure, Claims, VerifiedIdentity, AuthPrincipal, principal_of, first_seen, seen_again,
  write_user, email_is_taken, sync_beside, settle, raised,
}

abbrev pub id_of : AppUser → String
id_of row = row.user_id

abbrev pub subject_of : AppUser → String
subject_of row = row.auth_subject

abbrev pub workspace_key : Workspace → String
workspace_key row = row.workspace_id

abbrev pub owner_of : Workspace → String
owner_of row = row.owner_user_id

-- The identifiers of users and of workspaces are primary keys.
pub record PrimaryKeys (db : Tables) : Type 0 where
  pub user_ids : IsKeyed id_of db.users
  pub workspace_ids : IsKeyed workspace_key db.workspaces

-- What a request leaves behind: keys stay keys, workspaces stay, and a user keeps the subject.
pub record Follows (db db' : Tables) : Type 0 where
  pub workspaces : db'.workspaces ≡ db.workspaces
  pub keyed : IsKeyed id_of db.users → IsKeyed id_of db'.users
  pub users :
      (k v : String) → Has id_of subject_of k v db.users → Has id_of subject_of k v db'.users

pub same-Follows : (db : Tables) → Follows db db
same-Follows db = record { workspaces = refl; keyed = λ k. k; users = λ k v h. h }

pub then-Follows : (db db₁ db₂ : Tables) → Follows db db₁ → Follows db₁ db₂ → Follows db db₂
then-Follows db db₁ db₂ f g = record {
  workspaces = g.workspaces ∙ f.workspaces;
  keyed = λ k. g.keyed (f.keyed k);
  users = λ k v h. g.users k v (f.users k v h);
}

apart-has_key :
    (row : AppUser) (rows : List AppUser)
    → any (same_user row) rows ≡ false
    → has_key id_of row.user_id rows ≡ false
apart-has_key row [] h = refl
apart-has_key row (r ∷ rows) h =
    let (here, rest) = or-neither (same_user row r) _ h in
    let (ids, _) = or-neither (str_eq row.user_id r.user_id) _ here in
    rw (str_eq_sym r.user_id row.user_id, ids) (apart-has_key row rows rest)

-- A principal is a user that is there, with the identity's subject.
abbrev pub IsUser : AuthPrincipal → Tables → Type 0
IsUser principal db = Has id_of subject_of principal.user_id principal.auth_subject db.users

pub sync_beside-ok :
    (id : Uuid) (now : Datetime) (bootstrap : Bool) (identity : VerifiedIdentity) (db db' : Tables)
    (p : AuthPrincipal) (found : Option AppUser)
    → find_first (λ row. str_eq row.auth_subject identity.subject) db.users ≡ found
    → sync_beside id now bootstrap identity db found ≡ ok (p, db')
    → Follows db db' × IsUser p db'
sync_beside-ok id now bootstrap identity db db' p none there h =
    let row = first_seen id now bootstrap identity in
    let added = record db { users = db.users ++ row ∷ [] } in
    let (fresh, made) =
      require-ok (not (any (same_user row) db.users)) (raised "IntegrityError")
        (ok (principal_of row, added)) h in
    let e = ok-injective {E = HttpFailure} (principal_of row, added) (p, db') made in
    let absent = apart-has_key row db.users (not-true _ fresh) in
    (
      subst (Follows db) (ap (λ q. q.1) e) (record {
        workspaces = refl;
        keyed = λ k. IsKeyed-append id_of db.users row absent k;
        users = λ k v has. Has-append id_of subject_of k v db.users (row ∷ []) has;
      }),
      subst (λ q. IsUser q.0 q.1) e (Has-last id_of subject_of db.users row),
    )
sync_beside-ok id now bootstrap identity db db' p (some user) there h =
    let row = seen_again now bootstrap identity user in
    let written = record db { users = map (write_user row) db.users } in
    let (_, made) =
      require-ok (not (email_is_taken row db.users)) (raised "IntegrityError")
        (ok (principal_of row, written)) h in
    let e = ok-injective {E = HttpFailure} (principal_of row, written) (p, db') made in
    let keeps = Has-map id_of subject_of (write_user row) (λ r. refl) (λ r. refl) in
    (
      subst (Follows db) (ap (λ q. q.1) e) (record {
        workspaces = refl;
        keyed = λ k. IsKeyed-map id_of (write_user row) (λ r. refl) db.users k;
        users = λ k v has. keeps k v db.users has;
      }),
      subst (λ q. IsUser q.0 q.1) e
          (keeps user.user_id user.auth_subject db.users (
            find_first-Has id_of subject_of (λ r. str_eq r.auth_subject identity.subject) db.users
              user there)),
    )

pub record Sound (db : Tables) (answer : Result HttpFailure AuthPrincipal × Tables) : Type 0 where
  pub follows : Follows db answer.1
  pub user : (p : AuthPrincipal) → answer.0 ≡ ok p → IsUser p answer.1

pub settle-Sound :
    (decode : String → Option Claims) (admin_emails : List String) (db : Tables)
    (r : Result HttpFailure (AuthPrincipal × Tables))
    → ((p : AuthPrincipal) (db' : Tables) → r ≡ ok (p, db') → Follows db db' × IsUser p db')
    → Sound db (settle decode admin_emails db r)
settle-Sound decode admin_emails db (ok (p, db')) sound =
    let (follows, user) = sound p db' refl in
    record {
      follows = follows;
      user = λ q h. subst (λ x. IsUser x db') (ok-injective {E = HttpFailure} p q h) user;
    }
settle-Sound decode admin_emails db (err e) sound = record {
  follows = same-Follows db;
  user = λ q h. absurd (err≢ok h);
}
