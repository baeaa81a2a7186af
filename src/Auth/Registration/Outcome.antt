-- ===== src/Auth/Registration/Outcome.antt =====
-- A registration (packages/auth/registration.py) is all or nothing.
use alpha_desk.Base.{
  ◌≡◌, ◌⊎◌, inl, inr, refl, sym, ap, ◌∙◌, Bool, true, false, not, ◌&&◌, ◌||◌, Option, none, some,
  String, List, [], ◌∷◌, ◌++◌, any, find_first, str_eq, str_eq_iff, arith, Bool-cases, &&-parts,
}
use alpha_desk.Base.Results.{Result, ok, err, ◌>>=◌, bind-ok, require-ok, ok-injective}
use alpha_desk.Base.Texts.{lower, strip, is_empty}
use alpha_desk.Domain.Accounts.{Workspace, Invitation, Redemption, Tables}
use alpha_desk.Auth.Invitations.{opens, available}
use alpha_desk.Auth.Workspaces.{
  Exception, create_connected_workspace, same_workspace, new_workspace, new_watchlist, new_audit,
}
use alpha_desk.Auth.Registration.{
  SupabaseIdentity, AdminFailure, supabase_admin_error, other_exception, AdminAuth, identity_of,
  Fresh, new_user, new_redemption, or_empty, unavailable, record_redemption, with_redemption,
  is_taken, is_redeemed, place, Document, admit_user, Attempt, create_user, with_identity,
  with_invitation, conclude, register,
}

-- The rows of a user's account.
abbrev pub placed : Fresh → SupabaseIdentity → Tables → Workspace × Tables
placed fresh identity db =
    let workspace = new_workspace fresh.workspace_id fresh.now fresh.user_id identity.email in
    (
      workspace,
      record db {
        users = db.users ++ new_user fresh identity ∷ [];
        workspaces = db.workspaces ++ workspace ∷ [];
        watchlist = db.watchlist ++ new_watchlist fresh.workspace_id fresh.now;
        audits =
            db.audits
            ++ new_audit fresh.audit_id fresh.workspace_id fresh.user_id
                "INVITATION_CONNECTED_WORKSPACE_PROVISIONED" fresh.now
              ∷ [];
      },
    )

-- The tables behind a registration that returns.
abbrev pub registered : Fresh → SupabaseIdentity → Invitation → Tables → Tables
registered fresh identity invitation db =
    with_redemption (new_redemption fresh invitation.invitation_id) (placed fresh identity db).1

record_redemption-ok :
    (redemption : Redemption) (fault : Option Exception) (w v : Workspace) (db db' : Tables)
    → record_redemption redemption fault (w, db) ≡ ok (v, db')
    → (w ≡ v) × (with_redemption redemption db ≡ db')
record_redemption-ok redemption none w v db db' h =
    let (_, h1) =
      require-ok (not (is_redeemed redemption db)) "IntegrityError"
        (ok (w, with_redemption redemption db)) h in
    let e = ok-injective {E = String} (w, with_redemption redemption db) (v, db') h1 in
    (ap (λ p. p.0) e, ap (λ p. p.1) e)
record_redemption-ok redemption (some e) w v db db' h =
    let (_, h1) = require-ok (not (is_redeemed redemption db)) "IntegrityError" (err e) h in cc

place-ok :
    (fresh : Fresh) (identity : SupabaseIdentity) (db db' : Tables) (w : Workspace)
    → place fresh identity db ≡ ok (w, db')
    → ((placed fresh identity db).0 ≡ w) × ((placed fresh identity db).1 ≡ db')
unfolding create_connected_workspace
place-ok fresh identity db db' w h =
    let (_, h1) =
      require-ok (not (any (same_workspace (placed fresh identity db).0) db.workspaces))
        "IntegrityError" (ok (placed fresh identity db)) h in
    let e = ok-injective {E = String} (placed fresh identity db) (w, db') h1 in
    (ap (λ p. p.0) e, ap (λ p. p.1) e)

admit_user-ok :
    (fresh : Fresh) (identity : SupabaseIdentity) (invitation : Invitation) (db db' : Tables)
    (w : Workspace)
    → admit_user fresh identity invitation db ≡ ok (w, db')
    → ((placed fresh identity db).0 ≡ w) × (registered fresh identity invitation db ≡ db')
unfolding admit_user
admit_user-ok fresh identity invitation db db' w h =
    let redemption = new_redemption fresh invitation.invitation_id in
    let rest = record_redemption redemption fresh.fault in
    let (_, h1) =
      require-ok (not (is_taken (new_user fresh identity) db)) "IntegrityError"
        (place fresh identity db >>= rest) h in
    let ((v, db₁), made, h2) = bind-ok (place fresh identity db) rest h1 in
    let (same, there) = place-ok fresh identity db db₁ v made in
    let (same', there') = record_redemption-ok redemption fresh.fault v w db₁ db' h2 in
    (same ∙ same', ap (with_redemption redemption) there ∙ there')

module _ {S : Type 0} (auth : AdminAuth S) (hash : String → String) (admin_emails : List String)
    (fresh : Fresh) (email password code : String) (db : Tables) (s : S) where
  abbrev normalized : String
  normalized = lower (strip email)

  abbrev created : Result AdminFailure SupabaseIdentity × S
  created = create_user auth normalized password s

  -- Everything is there: an invitation that the code opens, that is not disabled, not expired and
  -- not used up; an identity of the address; and the rows of the new user's account.
  pub record Registered (attempt : Attempt auth hash admin_emails) : Type 0 where
    pub invitation : Invitation
    pub identity : SupabaseIdentity
    pub opened : find_first (opens hash code) db.invitations ≡ some invitation
    pub usable : available invitation fresh.now ≡ true
    pub unknown : any (λ user. str_eq user.email normalized) db.users ≡ false
    pub unprivileged : any (λ admin. str_eq admin normalized) admin_emails ≡ false
    pub identified : created.0 ≡ ok identity
    pub addressed : identity.email ≡ normalized
    pub result :
        attempt
        ≡ (ok (placed fresh identity db).0, registered fresh identity invitation db, created.1)

  -- Nothing is there: the tables are as before, and the provider was not asked, or refused, or was
  -- asked to delete the identity that it had created.
  pub record Refused (attempt : Attempt auth hash admin_emails) : Type 0 where
    pub exception : Exception
    pub raised : attempt.0 ≡ err exception
    pub tables : attempt.1 ≡ db
    pub provider :
        (attempt.2 ≡ s)
        ⊎ (((failure : AdminFailure) × (created.0 ≡ err failure) × (attempt.2 ≡ created.1))
            ⊎ ((identity : SupabaseIdentity) × (created.0 ≡ ok identity)
                × (attempt.2 ≡ (auth.delete_user created.1 identity.subject).1)))

not-or-neither : (a b : Bool) → (not a || b) ≡ false → (a ≡ true) × (b ≡ false)
not-or-neither a b h = (ground arith, ground arith)

identity_of-email :
    (address : String) (answer : Result AdminFailure Document) (identity : SupabaseIdentity)
    → identity_of address answer ≡ ok identity
    → identity.email ≡ address
identity_of-email address (err e) identity h = cc
identity_of-email address (ok document) identity h =
    let subject = strip (or_empty document.id) in
    let returned = lower (strip (or_empty document.email)) in
    let (checked, h1) =
      require-ok (not (is_empty subject) && str_eq returned address) supabase_admin_error
        (ok (record { subject = subject; email = returned })) h in
    let (_, same) = &&-parts (not (is_empty subject)) _ checked in
    let e =
      ok-injective {E = AdminFailure} (record { subject = subject; email = returned }) identity
        h1 in
    sym (ap (λ i. i.email) e) ∙ (str_eq_iff returned address).0 same

create_user-email :
    {S : Type 0} (auth : AdminAuth S) (address password : String) (s s' : S)
    (identity : SupabaseIdentity)
    → create_user auth address password s ≡ (ok identity, s')
    → identity.email ≡ address
unfolding create_user
create_user-email auth address password s s' identity made =
    identity_of-email address (auth.post_user s address password).0 identity (ap (λ p. p.0) made)

module _ {S : Type 0} (auth : AdminAuth S) (hash : String → String) (admin_emails : List String)
    (fresh : Fresh) (email password code : String) (db : Tables) (s : S) where
  abbrev Outcome : Attempt auth hash admin_emails → Type 0
  Outcome attempt =
      Registered auth hash admin_emails fresh email password code db s attempt
      ⊎ Refused auth hash admin_emails fresh email password code db s attempt

  unavailable-Refused : Outcome (unavailable auth hash admin_emails db s)
  unavailable-Refused = inr (record {
    exception = "RegistrationUnavailable";
    raised = refl;
    tables = refl;
    provider = inl refl;
  })

  module _ (unprivileged : any (λ admin. str_eq admin (lower (strip email))) admin_emails ≡ false)
      (invitation : Invitation)
      (opened : find_first (opens hash code) db.invitations ≡ some invitation)
      (usable : available invitation fresh.now ≡ true)
      (unknown : any (λ user. str_eq user.email (lower (strip email))) db.users ≡ false) where
    conclude-Outcome :
        (identity : SupabaseIdentity) (s' : S) (r : Result Exception (Workspace × Tables))
        → create_user auth (lower (strip email)) password s ≡ (ok identity, s')
        → admit_user fresh identity invitation db ≡ r
        → Outcome (conclude auth hash admin_emails identity db s' r)
    conclude-Outcome identity s' (err e) made failed = inr (record {
      exception = e;
      raised = refl;
      tables = refl;
      provider = inr (
          inr (
            identity,
            ap (λ p. p.0) made,
            ap (λ p. (auth.delete_user p.1 identity.subject).1) (sym made),
          ));
    })
    conclude-Outcome identity s' (ok (w, db')) made done =
        let (workspace, tables) = admit_user-ok fresh identity invitation db db' w done in
        inl (record {
          invitation = invitation;
          identity = identity;
          opened = opened;
          usable = usable;
          unknown = unknown;
          unprivileged = unprivileged;
          identified = ap (λ p. p.0) made;
          addressed = create_user-email auth (lower (strip email)) password s s' identity made;
          result = λ i. (ok (sym workspace i), sym tables i, ap (λ p. p.1) (sym made) i);
        })

    with_identity-Outcome :
        (answer : Result AdminFailure SupabaseIdentity × S)
        → create_user auth (lower (strip email)) password s ≡ answer
        → Outcome (with_identity auth hash admin_emails fresh invitation db answer)
    with_identity-Outcome (ok identity, s') made =
        conclude-Outcome identity s' (admit_user fresh identity invitation db) made refl
    with_identity-Outcome (err supabase_admin_error, s') made = inr (record {
      exception = "RegistrationUnavailable";
      raised = refl;
      tables = refl;
      provider = inr (inl (supabase_admin_error, ap (λ p. p.0) made, ap (λ p. p.1) (sym made)));
    })
    with_identity-Outcome (err (other_exception e), s') made = inr (record {
      exception = e;
      raised = refl;
      tables = refl;
      provider = inr (inl (other_exception e, ap (λ p. p.0) made, ap (λ p. p.1) (sym made)));
    })

  with_invitation-Outcome :
      any (λ admin. str_eq admin (lower (strip email))) admin_emails ≡ false
      → (found : Option Invitation) → find_first (opens hash code) db.invitations ≡ found
      → Outcome
          (with_invitation auth hash admin_emails fresh (lower (strip email)) password db s found)
  with_invitation-Outcome unprivileged none opened = unavailable-Refused
  with_invitation-Outcome unprivileged (some invitation) opened =
      let usable = available invitation fresh.now in
      let known = any (λ user. str_eq user.email (lower (strip email))) db.users in
      elim (Bool-cases (not usable || known)) [
        | inl closed ↦ rw closed unavailable-Refused
        | inr open_ ↦
            let (can, unknown) = not-or-neither usable known open_ in
            rw open_ (
              with_identity-Outcome unprivileged invitation opened can unknown
                (create_user auth (lower (strip email)) password s) refl)
      ]

  -- A registration that returns has created everything: it used an invitation that the code opens
  -- and that is neither disabled nor expired nor used up, for an address that was neither a user's
  -- nor an administrator's. The provider's identity has that address, and the user, the workspace
  -- with its watchlist and audit record, and the redemption are added. One that raises, wherever
  -- that happens, changes no table, and the identity, where the provider had already reported one,
  -- was asked to be deleted.
  pub register-Outcome :
      Registered auth hash admin_emails fresh email password code db s
        (register auth hash admin_emails fresh email password code db s)
      ⊎ Refused auth hash admin_emails fresh email password code db s
          (register auth hash admin_emails fresh email password code db s)
  unfolding register
  register-Outcome =
      elim (Bool-cases (any (λ admin. str_eq admin (lower (strip email))) admin_emails)) [
        | inl admin ↦ rw admin unavailable-Refused
        | inr unprivileged ↦ rw unprivileged (
            with_invitation-Outcome unprivileged (find_first (opens hash code) db.invitations) refl)
      ]
