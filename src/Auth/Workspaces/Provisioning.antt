-- ===== src/Auth/Workspaces/Provisioning.antt =====
-- Provisioning again (packages/auth/workspaces.py) finds the workspace that is there.
use alpha_desk.Base.{
  ◌≡◌, refl, sym, ap, ◌∙◌, true, false, Option, none, some, String, [], ◌∷◌, ◌++◌, find_first,
  find_first-last, find_first-passes, str_eq,
}
use alpha_desk.Base.Results.{ok, bind-ok, require-ok, ok-injective}
use alpha_desk.Domain.Time.{Datetime}
use alpha_desk.Domain.Workflow.{Uuid}
use alpha_desk.Domain.Accounts.{AppUser, Workspace, Tables}
use alpha_desk.Auth.Workspaces.{
  owned_by, create_connected_workspace, WorkspaceProvisioningResult, new_workspace, provision,
  provision_for, provision_beside,
}

-- A workspace that is created stands last, and the users are left alone.
pub create_connected_workspace-ok :
    (id audit_id : Uuid) (now : Datetime) (owner : Uuid) (email : String) (actor : Uuid)
    (action : String) (db db' : Tables) (w : Workspace)
    → create_connected_workspace id audit_id now owner email actor action db ≡ ok (w, db')
    → (w ≡ new_workspace id now owner email)
      × (db'.workspaces ≡ db.workspaces ++ w ∷ [])
      × (db'.users ≡ db.users)
unfolding create_connected_workspace
create_connected_workspace-ok id audit_id now owner email actor action db db' w h =
    let (_, made) = require-ok _ _ _ h in
    let e = ok-injective {E = String} _ (w, db') made in
    (
      sym (ap (λ p. p.0) e),
      rw (← ap (λ p. p.0) e, ← ap (λ p. p.1) e) refl,
      rw (← ap (λ p. p.1) e) refl,
    )

module _ (id audit_id : Uuid) (now : Datetime) (user : Uuid) where
  beside-finds :
      (admin : AppUser) (db db' : Tables) (r : WorkspaceProvisioningResult)
      (existing : Option Workspace)
      → str_eq admin.user_id user ≡ true
      → find_first (owned_by user) db.workspaces ≡ existing
      → provision_beside id audit_id now admin db existing ≡ ok (r, db')
      → (db'.users ≡ db.users) × (find_first (owned_by user) db'.workspaces ≡ some r.workspace)
  beside-finds admin db db' r (some w) same found h =
      let e = ok-injective {E = String} _ (r, db') h in
      (
        sym (ap (λ p. p.1.users) e),
        ap (λ p. find_first (owned_by user) p.1.workspaces) (sym e)
            ∙ (found ∙ ap (λ p. some p.0.workspace) e),
      )
  beside-finds admin db db' r none same found h =
      let ((w, db₁), made, h1) =
        bind-ok
          (create_connected_workspace id audit_id now admin.user_id admin.email admin.user_id
            "ADMIN_CONNECTED_WORKSPACE_PROVISIONED" db)
          _ h in
      let (is_new, there, kept) =
        create_connected_workspace-ok id audit_id now admin.user_id admin.email admin.user_id
          "ADMIN_CONNECTED_WORKSPACE_PROVISIONED" db db₁ w made in
      let e = ok-injective {E = String} _ (r, db') h1 in
      let owner = ap (λ v. str_eq v.owner_user_id user) is_new ∙ same in
      (
        sym (ap (λ p. p.1.users) e) ∙ kept,
        ap (λ p. find_first (owned_by user) p.1.workspaces) (sym e)
            ∙ (ap (find_first (owned_by user)) there
                ∙ (find_first-last (owned_by user) db.workspaces w found owner
                    ∙ ap (λ p. some p.0.workspace) e)),
      )

  for-finds :
      (db db' : Tables) (r : WorkspaceProvisioningResult) (found : Option AppUser)
      → find_first (λ row. str_eq row.user_id user) db.users ≡ found
      → provision_for id audit_id now user db found ≡ ok (r, db')
      → (admin : AppUser) × (find_first (λ row. str_eq row.user_id user) db'.users ≡ some admin)
        × (admin.is_admin ≡ true)
        × (find_first (owned_by user) db'.workspaces ≡ some r.workspace)
  for-finds db db' r none found h = cc
  for-finds db db' r (some admin) found h =
      let (privileged, h1) = require-ok admin.is_admin _ _ h in
      let same = find_first-passes (λ row. str_eq row.user_id user) db.users admin found in
      let (users, there) = beside-finds admin db db' r _ same refl h1 in
      (admin, ap (find_first (λ row. str_eq row.user_id user)) users ∙ found, privileged, there)

-- Whoever was provisioned is an administrator, and provisioning again, at any later time and with
-- any fresh identifiers, returns the same workspace as not created and changes no table.
pub provision_idempotent :
    (id audit_id id' audit_id' : Uuid) (now now' : Datetime) (user : Uuid) (db db' : Tables)
    (r : WorkspaceProvisioningResult)
    → provision id audit_id now user db ≡ ok (r, db')
    → ((admin : AppUser) × (find_first (λ row. str_eq row.user_id user) db'.users ≡ some admin)
        × (admin.is_admin ≡ true))
      × (provision id' audit_id' now' user db'
          ≡ ok (record { workspace = r.workspace; created = false }, db'))
unfolding provision
provision_idempotent id audit_id id' audit_id' now now' user db db' r h =
    let (admin, known, privileged, there) = for-finds id audit_id now user db db' r _ refl h in
    ((admin, known, privileged), rw (known, privileged, there) refl)

-- Provisioning leaves the invitations and their redemptions alone.
abbrev pub KeepsUses : Tables → Tables → Type 0
KeepsUses db db' = (db'.invitations ≡ db.invitations) × (db'.redemptions ≡ db.redemptions)

create_connected_workspace-KeepsUses :
    (id audit_id : Uuid) (now : Datetime) (owner : Uuid) (email : String) (actor : Uuid)
    (action : String) (db db' : Tables) (w : Workspace)
    → create_connected_workspace id audit_id now owner email actor action db ≡ ok (w, db')
    → KeepsUses db db'
unfolding create_connected_workspace
create_connected_workspace-KeepsUses id audit_id now owner email actor action db db' w h =
    let (_, made) = require-ok _ _ _ h in
    let e = ok-injective {E = String} _ (w, db') made in
    (sym (ap (λ p. p.1.invitations) e), sym (ap (λ p. p.1.redemptions) e))

module _ (id audit_id : Uuid) (now : Datetime) (user : Uuid) (db db' : Tables)
    (r : WorkspaceProvisioningResult) where
  beside-KeepsUses :
      (admin : AppUser) (existing : Option Workspace)
      → provision_beside id audit_id now admin db existing ≡ ok (r, db')
      → KeepsUses db db'
  beside-KeepsUses admin (some w) h =
      let e = ok-injective {E = String} _ (r, db') h in
      (sym (ap (λ p. p.1.invitations) e), sym (ap (λ p. p.1.redemptions) e))
  beside-KeepsUses admin none h =
      let ((w, db₁), made, h1) =
        bind-ok
          (create_connected_workspace id audit_id now admin.user_id admin.email admin.user_id
            "ADMIN_CONNECTED_WORKSPACE_PROVISIONED" db)
          _ h in
      let e = ok-injective {E = String} _ (r, db') h1 in
      let (invitations, redemptions) =
        create_connected_workspace-KeepsUses id audit_id now admin.user_id admin.email admin.user_id
          "ADMIN_CONNECTED_WORKSPACE_PROVISIONED" db db₁ w made in
      (
        sym (ap (λ p. p.1.invitations) e) ∙ invitations,
        sym (ap (λ p. p.1.redemptions) e) ∙ redemptions,
      )

  for-KeepsUses :
      (found : Option AppUser)
      → provision_for id audit_id now user db found ≡ ok (r, db')
      → KeepsUses db db'
  for-KeepsUses none h = cc
  for-KeepsUses (some admin) h =
      let (_, h1) = require-ok admin.is_admin _ _ h in beside-KeepsUses admin _ h1

  pub provision-KeepsUses : provision id audit_id now user db ≡ ok (r, db') → KeepsUses db db'
  unfolding provision
  provision-KeepsUses h = for-KeepsUses _ h
