-- ===== src/Auth/Access/Tenants.antt =====
-- Two identities never get the same workspace (packages/auth/dependencies.py), through any requests.
use alpha_desk.Base.{
  ◌≡◌, refl, ap, subst, false, not, Option, none, some, String, List, [], ◌∷◌, find_first, str_eq,
  not-true,
}
use alpha_desk.Base.Keys.{Has}
use alpha_desk.Base.Results.{Result, ok, ◌>>=◌, bind-ok, require-ok, ok-injective, err≢ok}
use alpha_desk.Base.Texts.{lower}
use alpha_desk.Domain.Time.{Datetime}
use alpha_desk.Domain.Workflow.{Uuid}
use alpha_desk.Domain.Accounts.{Workspace, Tables}
use alpha_desk.Auth.Workspaces.{owned_by}
use alpha_desk.Auth.Access.Sync.{
  id_of, subject_of, Follows, same-Follows, IsUser, Sound, settle-Sound, sync_beside-ok,
}
use alpha_desk.Auth.Access.{
  HttpFailure, Claims, VerifiedIdentity, AuthPrincipal, WorkspaceContext, verify, sync_user,
  is_bootstrap_admin, unauthorized, require_principal, with_workspace, own_workspace,
  require_workspace, http_exception,
}

-- A request: the identifier that a new user would get, the time, and the credentials.
pub record Request : Type 0 where
  pub fresh_id : Uuid
  pub at : Datetime
  pub credentials : Option (String × String)

module _ (decode : String → Option Claims) (admin_emails : List String) where
  sync_user-ok :
      (id : Uuid) (now : Datetime) (identity : VerifiedIdentity) (db db' : Tables)
      (p : AuthPrincipal)
      → sync_user decode admin_emails id now identity db ≡ ok (p, db')
      → Follows db db' × IsUser p db'
  unfolding sync_user
  sync_user-ok id now identity db db' p h =
      sync_beside-ok id now (is_bootstrap_admin decode admin_emails identity) identity db db' p
        (find_first (λ row. str_eq row.auth_subject identity.subject) db.users) refl h

  require_principal-Sound :
      (id : Uuid) (now : Datetime) (credentials : Option (String × String)) (db : Tables)
      → Sound db (require_principal decode admin_emails id now credentials db)
  unfolding require_principal
  require_principal-Sound id now none db = record {
    follows = same-Follows db;
    user = λ p h. absurd (err≢ok h);
  }
  require_principal-Sound id now (some (scheme, token)) db =
      settle-Sound decode admin_emails db _ (λ p db' h.
        let identify = unauthorized decode admin_emails (verify decode token) in
        let next =
          λ (identity : VerifiedIdentity). sync_user decode admin_emails id now identity db in
        let (_, h1) =
          require-ok (str_eq (lower scheme) "bearer") (http_exception 401 "Authentication required")
            (identify >>= next) h in
        let (identity, _, h2) = bind-ok identify next h1 in
        sync_user-ok id now identity db db' p h2)

  -- What the context of an admitted request says: the principal is a user that is there, and the
  -- workspace is one of that user's, and not suspended.
  pub record Admitted (db : Tables) (context : WorkspaceContext) : Type 0 where
    pub workspace : Workspace
    pub user :
        Has id_of subject_of context.principal.user_id context.principal.auth_subject db.users
    pub found : find_first (owned_by context.principal.user_id) db.workspaces ≡ some workspace
    pub named : workspace.workspace_id ≡ context.workspace_id
    pub active : str_eq workspace.status "SUSPENDED" ≡ false

  with_workspace-ok :
      (p : AuthPrincipal) (c : WorkspaceContext) (found : Option Workspace)
      → with_workspace decode admin_emails p found ≡ ok c
      → (w : Workspace) × (found ≡ some w)
        × (w.workspace_id ≡ c.workspace_id)
        × (p ≡ c.principal)
        × (str_eq w.status "SUSPENDED" ≡ false)
  with_workspace-ok p c none h = absurd (err≢ok h)
  with_workspace-ok p c (some w) h =
      let context : WorkspaceContext = record {
        principal = p;
        workspace_id = w.workspace_id;
        status = w.status;
      } in
      let (active, h1) =
        require-ok (not (str_eq w.status "SUSPENDED"))
          (http_exception 423 "Connected workspace is suspended") (ok context) h in
      let e = ok-injective {E = HttpFailure} context c h1 in
      (w, refl, ap (λ x. x.workspace_id) e, ap (λ x. x.principal) e, not-true _ active)

  module _ (request : Request) (db : Tables) where
    abbrev pub answered : Result HttpFailure WorkspaceContext × Tables
    answered =
        require_workspace decode admin_emails request.fresh_id request.at request.credentials db

    -- An admitted request's principal is a user that is there, under the subject of the request, and
    -- the workspace is the first that this user owns, and is not suspended.
    pub answered-Admitted : (c : WorkspaceContext) → answered.0 ≡ ok c → Admitted answered.1 c
    unfolding require_workspace
    answered-Admitted c h =
        let asked =
          require_principal decode admin_emails request.fresh_id request.at request.credentials
            db in
        let sound = require_principal-Sound request.fresh_id request.at request.credentials db in
        let (p, known, h1) = bind-ok asked.0 (own_workspace decode admin_emails asked.1) h in
        let (w, found, named, same, active) =
          with_workspace-ok p c (find_first (owned_by p.user_id) asked.1.workspaces) h1 in
        record {
          workspace = w;
          user = subst (λ q. IsUser q asked.1) same (sound.user p known);
          found =
              subst
                (λ (q : AuthPrincipal). find_first (owned_by q.user_id) asked.1.workspaces ≡ some w)
                same found;
          named = named;
          active = active;
        }

  -- Any further requests, one after another.
  unfoldable pub serve : List Request → Tables → Tables
  serve [] db = db
  serve (request ∷ requests) db = serve requests (answered request db).1
