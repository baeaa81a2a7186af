-- ===== src/Auth/Examples.antt =====
-- Concrete accounts: an administrator, an invitation, and requests of two users.
use alpha_desk.Base.{ℕ, ◌≡◌, ◌⊎◌, refl, true, false, Option, none, some, String, [], ◌∷◌}
use alpha_desk.Base.Results.{ok}
use alpha_desk.Base.Texts.{upper, lower, strip}
use alpha_desk.Domain.Accounts.{AppUser, Workspace, Invitation, Tables}
use alpha_desk.Auth.Invitations.{
  normalize_readable_code, generate_invitation_code, invitation_hash_candidates, create, inspect,
  available,
}
use alpha_desk.Auth.Workspaces.{provision, create_connected_workspace}
use alpha_desk.Auth.Registration.{AdminAuth, Fresh, register, create_user, admit_user}
use alpha_desk.Auth.Registration.Outcome.{Registered, Refused, register-Outcome}
use alpha_desk.Auth.Registration.Uses.{WithinUses, insert_invitation}
use alpha_desk.Auth.Registration.History.{
  issues, disables, registers, provisions, account_history, account_history-WithinUses,
}
use alpha_desk.Auth.Access.{Claims, WorkspaceContext}
use alpha_desk.Auth.Access.Tenants.{Request}
use alpha_desk.Samples.{noon}

abbrev hash : String → String
hash s = s

abbrev draws : String
draws = "0123456789ABCDEFGHJKMNPQRS"

abbrev issued : Invitation × String
issued = create hash "i1" draws (noon 0) "u0" "beta" 1 none

prints : (create hash "i1" draws (noon 0) "u0" "beta" 1 none).1 ≡ "01234-56789-ABCDE-FGHJK-MNPQR-S"
unfolding create generate_invitation_code
prints = refl

-- Typed in small letters, with a space for a dash and one in front.
abbrev typed : String
typed = " 01234 56789-abcde-fghjk-mnpqr-s"

abbrev admin : AppUser
admin = record {
  user_id = "u0";
  auth_subject = "s0";
  email = "root@desk.example";
  is_admin = true;
  created_at = noon 0;
  last_seen_at = noon 0;
}

abbrev start : Tables
start = record {
  users = admin ∷ [];
  workspaces = [];
  invitations = [];
  redemptions = [];
  watchlist = [];
  audits = [];
}

start-WithinUses : WithinUses start
start-WithinUses = record { fits = tt; known = tt; distinct = tt }

-- The provider counts its requests, and gives the address back.
abbrev auth : AdminAuth ℕ
auth = record {
  post_user = λ n email password. (ok (record { id = some "s1"; email = some email }), n);
  delete_user = λ n subject. (ok tt, n);
}

abbrev fresh : Fresh
fresh = record {
  user_id = "u1";
  workspace_id = "w1";
  audit_id = "a1";
  redemption_id = "r1";
  now = noon 5;
  fault = none;
}

abbrev invited : Tables
invited = insert_invitation issued.0 start

register-Outcome_example :
    Registered auth hash
      ("root@desk.example" ∷ [])
      fresh
      "Ann@Desk.example"
      "secret"
      typed
      invited
      0
      (register auth hash
        ("root@desk.example" ∷ [])
        fresh
        "Ann@Desk.example"
        "secret"
        typed
        invited
        0)
    ⊎ Refused auth hash
        ("root@desk.example" ∷ [])
        fresh
        "Ann@Desk.example"
        "secret"
        typed
        invited
        0
        (register auth hash
          ("root@desk.example" ∷ [])
          fresh
          "Ann@Desk.example"
          "secret"
          typed
          invited
          0)
register-Outcome_example =
    register-Outcome auth hash ("root@desk.example" ∷ []) fresh "Ann@Desk.example" "secret" typed
      invited 0

account_history-WithinUses_example :
    WithinUses
      (account_history auth hash
        ("root@desk.example" ∷ [])
        (issues "i1" draws (noon 0) "u0" "beta" 1 none
          ∷ registers fresh "Ann@Desk.example" "secret" typed
          ∷ registers fresh "Bob@Desk.example" "secret" typed
          ∷ disables "i1" (noon 9)
          ∷ provisions "w0" "a0" (noon 10) "u0"
          ∷ [])
        (start, 0)).0
account_history-WithinUses_example =
    account_history-WithinUses auth hash ("root@desk.example" ∷ [])
      (issues "i1" draws (noon 0) "u0" "beta" 1 none
        ∷ registers fresh "Ann@Desk.example" "secret" typed
        ∷ registers fresh "Bob@Desk.example" "secret" typed
        ∷ disables "i1" (noon 9)
        ∷ provisions "w0" "a0" (noon 10) "u0"
        ∷ [])
      start 0 start-WithinUses

-- The first of the two is admitted.
admits_ann :
    (register auth hash
      ("root@desk.example" ∷ [])
      fresh
      "Ann@Desk.example"
      "secret"
      typed
      invited
      0).1.redemptions
    ≡ record { redemption_id = "r1"; invitation_id = "i1"; user_id = "u1"; redeemed_at = noon 5 }
      ∷ []
unfolding register create_user admit_user create_connected_workspace insert_invitation create
    available inspect invitation_hash_candidates normalize_readable_code generate_invitation_code
    upper lower strip
admits_ann = refl

abbrev owned : Workspace
owned = record {
  workspace_id = "w0";
  owner_user_id = "u0";
  name = "root's paper desk";
  workspace_type = "CONNECTED_PAPER";
  status = "ONBOARDING";
  scanner_enabled = false;
  created_at = noon 1;
  updated_at = noon 1;
}

abbrev with_owned : Tables
with_owned = record start { workspaces = owned ∷ [] }

finds_owned :
    provision "w9" "a9" (noon 2) "u0" with_owned
    ≡ ok (record { workspace = owned; created = false }, with_owned)
unfolding provision
finds_owned = refl

-- Every token is accepted, and names its subject.
abbrev decode : String → Option Claims
decode token = some (record { sub = some token; email = some "root@desk.example" })

abbrev request : Request
request = record { fresh_id = "u7"; at = noon 8; credentials = some ("Bearer", "s0") }

abbrev context : WorkspaceContext
context = record {
  principal = record {
    user_id = "u0";
    auth_subject = "s0";
    email = "root@desk.example";
    is_admin = true;
  };
  workspace_id = "w0";
  status = "ONBOARDING";
}
