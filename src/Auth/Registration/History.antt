-- ===== src/Auth/Registration/History.antt =====
-- Any history of the accounts: invitations are issued and disabled (packages/auth/invitations.py,
-- apps/api/routes/admin.py), users register and administrators are provisioned, in any order.
use alpha_desk.Base.{
  ℕ, ◌<◌, ◌≡◌, inl, inr, refl, true, not, Option, String, List, [], ◌∷◌, ltb→lt, &&-parts, is_some,
}
use alpha_desk.Base.Results.{Result, ok, err, Result-cases}
use alpha_desk.Domain.Time.{Datetime}
use alpha_desk.Domain.Workflow.{Uuid}
use alpha_desk.Domain.Accounts.{Invitation, Tables}
use alpha_desk.Auth.Invitations.{create, opens, available, not_expired}
use alpha_desk.Auth.Workspaces.{WorkspaceProvisioningResult, Exception, provision}
use alpha_desk.Auth.Workspaces.Provisioning.{provision-KeepsUses}
use alpha_desk.Auth.Registration.{AdminAuth, Fresh, new_redemption, register}
use alpha_desk.Auth.Registration.Outcome.{placed, register-Outcome}
use alpha_desk.Auth.Registration.Uses.{
  WithinUses, insert_invitation, disable, insert_invitation-WithinUses, with_redemption-WithinUses,
  disable-WithinUses, same-WithinUses,
}

pub data AccountStep : Type 0 where
  issues : Uuid → String → Datetime → Uuid → String → ℕ → Option Datetime → AccountStep
  disables : Uuid → Datetime → AccountStep
  registers : Fresh → String → String → String → AccountStep
  provisions : Uuid → Uuid → Datetime → Uuid → AccountStep

abbrev pub tables_of : Tables → Result Exception (WorkspaceProvisioningResult × Tables) → Tables
tables_of db (ok (_, db')) = db'
tables_of db (err _) = db

available-below :
    (invitation : Invitation) (now : Datetime)
    → available invitation now ≡ true
    → invitation.use_count < invitation.max_uses
unfolding available
available-below invitation now h =
    let (_, rest) = &&-parts (not (is_some invitation.disabled_at)) _ h in
    let (_, left) = &&-parts (not_expired invitation.expires_at now) _ rest in
    ltb→lt invitation.use_count invitation.max_uses left

create-unused :
    (hash : String → String) (id : Uuid) (draws : String) (now : Datetime) (by : Uuid)
    (comment : String) (max_uses : ℕ) (expires_at : Option Datetime)
    → (create hash id draws now by comment max_uses expires_at).0.use_count ≡ 0
unfolding create
create-unused hash id draws now by comment max_uses expires_at = refl

module _ {S : Type 0} (auth : AdminAuth S) (hash : String → String)
    (admin_emails : List String) where
  -- One transaction after another: the row of an invitation is locked while it is redeemed.
  pub take_account_step : AccountStep → Tables × S → Tables × S
  take_account_step (issues id draws now by comment max_uses expires_at) (db, s) =
      (insert_invitation (create hash id draws now by comment max_uses expires_at).0 db, s)
  take_account_step (disables id now) (db, s) =
      (record db { invitations = disable id now db.invitations }, s)
  take_account_step (registers fresh email password code) (db, s) =
      let attempt = register auth hash admin_emails fresh email password code db s in
      (attempt.1, attempt.2)
  take_account_step (provisions id audit_id now user) (db, s) =
      (tables_of db (provision id audit_id now user db), s)

  pub account_history : List AccountStep → Tables × S → Tables × S
  account_history [] state = state
  account_history (step ∷ steps) state = account_history steps (take_account_step step state)

  register-WithinUses :
      (fresh : Fresh) (email password code : String) (db : Tables) (s : S)
      → WithinUses db
      → WithinUses (register auth hash admin_emails fresh email password code db s).1
  register-WithinUses fresh email password code db s w =
      elim (register-Outcome auth hash admin_emails fresh email password code db s) [
        | inl done ↦
            let invitation = done.invitation in
            let below = available-below invitation fresh.now done.usable in
            rw done.result (
              with_redemption-WithinUses (opens hash code) invitation
                (new_redemption fresh invitation.invitation_id) db (placed fresh done.identity db).1
                done.opened below refl refl refl w)
        | inr failed ↦ rw failed.tables w
      ]

  provision-WithinUses :
      (id audit_id : Uuid) (now : Datetime) (user : Uuid) (db : Tables)
      → WithinUses db
      → WithinUses (tables_of db (provision id audit_id now user db))
  provision-WithinUses id audit_id now user db w =
      elim (Result-cases (provision id audit_id now user db)) [
        | inl ((r, db'), done) ↦
            rw done
              (same-WithinUses db db' (provision-KeepsUses id audit_id now user db db' r done) w)
        | inr (e, failed) ↦ rw failed w
      ]

  step-WithinUses :
      (step : AccountStep) (db : Tables) (s : S)
      → WithinUses db
      → WithinUses (take_account_step step (db, s)).0
  unfolding take_account_step
  step-WithinUses (issues id draws now by comment max_uses expires_at) db s w =
      insert_invitation-WithinUses (create hash id draws now by comment max_uses expires_at).0 db
        (create-unused hash id draws now by comment max_uses expires_at) w
  step-WithinUses (disables id now) db s w = disable-WithinUses id now db w
  step-WithinUses (registers fresh email password code) db s w =
      register-WithinUses fresh email password code db s w
  step-WithinUses (provisions id audit_id now user) db s w =
      provision-WithinUses id audit_id now user db w

  -- Through any history, whatever the provider of identities answers and wherever the database
  -- fails, the use count of an invitation is the number of its redemptions, and at most its maximum.
  pub account_history-WithinUses :
      (steps : List AccountStep) (db : Tables) (s : S)
      → WithinUses db
      → WithinUses (account_history steps (db, s)).0
  unfolding account_history
  account_history-WithinUses [] db s w = w
  account_history-WithinUses (step ∷ steps) db s w =
      let (db', s') = take_account_step step (db, s) in
      account_history-WithinUses steps db' s' (step-WithinUses step db s w)
