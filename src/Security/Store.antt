-- ===== src/Security/Store.antt =====
-- packages/security/store.py: `CredentialStore`, one row for each workspace and provider.
pub mod RoundTrip
use alpha_desk.Base.{
  ◌≡◌, Bool, true, false, not, ◌&&◌, Option, none, some, String, List, [], ◌∷◌, ◌++◌, keep,
  find_first, any, str_eq, if◌then◌else◌,
}
use alpha_desk.Base.Results.{Result, ok, err, ◌>>=◌, ◌>>◌, require}
use alpha_desk.Base.Texts.{◌⧺◌, lower}
use alpha_desk.Domain.Time.{Datetime}
use alpha_desk.Domain.Workflow.{Uuid}
use alpha_desk.Domain.Accounts.{Audit}
use alpha_desk.Security.Credentials.{
  Sealing, CredentialError, EncryptedCredential, CredentialCipher, encrypt, decrypt,
}

-- `WorkspaceCredentialRecord`
pub record Credential : Type 0 where
  pub credential_id : Uuid
  pub workspace_id : Uuid
  pub provider : String
  pub key_version : String
  pub nonce : String
  pub ciphertext : String
  pub fingerprint : String
  pub configuration : List (String × String)
  pub validation_status : String
  pub enabled : Bool
  pub validated_at : Option Datetime
  pub created_at : Datetime
  pub updated_at : Datetime

-- The tables of credentials and of audit records.
pub record Vault : Type 0 where
  pub credentials : List Credential
  pub audits : List Audit

abbrev pub of_provider : Uuid → String → Credential → Bool
of_provider workspace provider row =
    str_eq row.workspace_id workspace && str_eq row.provider provider

-- What `save` is called with, besides the keys, and what is fresh in it.
pub record Saved (P : Type 0) : Type 0 where
  pub actor_user_id : Uuid
  pub secret_payload : P
  pub configuration : List (String × String)
  pub validation_status : String
  pub enabled : Bool
  pub credential_id : Uuid
  pub audit_id : Uuid
  pub nonce : String
  pub now : Datetime

abbrev pub values_of : {P : Type 0} → Uuid → String → Saved P → EncryptedCredential → Credential
values_of workspace provider saved encrypted = record {
  credential_id = saved.credential_id;
  workspace_id = workspace;
  provider = provider;
  key_version = encrypted.key_version;
  nonce = encrypted.nonce;
  ciphertext = encrypted.ciphertext;
  fingerprint = encrypted.fingerprint;
  configuration = saved.configuration;
  validation_status = saved.validation_status;
  enabled = saved.enabled;
  validated_at = if str_eq saved.validation_status "VERIFIED" then some saved.now else none;
  created_at = saved.now;
  updated_at = saved.now;
}

-- `on_conflict_do_update`: all columns but the identifier and the time of creation.
abbrev pub overwritten : Credential → Credential → Credential
overwritten values row = record values {
  credential_id = row.credential_id;
  created_at = row.created_at;
}

-- The insert under the unique key of workspace and provider.
abbrev pub upsert : Credential → List Credential → List Credential
upsert values [] = values ∷ []
upsert values (row ∷ rows) =
    if of_provider values.workspace_id values.provider row
    then overwritten values row ∷ rows
    else row ∷ upsert values rows

abbrev audit_of : Uuid → Uuid → Uuid → String → List (String × String) → Datetime → Audit
audit_of id workspace actor action detail now = record {
  audit_id = id;
  workspace_id = workspace;
  actor_user_id = actor;
  action = action;
  detail = detail;
  occurred_at = now;
}

module _ {P K : Type 0} (sealing : Sealing P K) (cipher : CredentialCipher K) where
  unfoldable pub save : Uuid → String → Saved P → Vault → Result CredentialError Vault
  save workspace provider saved vault = do
    encrypted ← encrypt sealing cipher workspace provider saved.secret_payload saved.nonce
    ok (record {
      credentials = upsert (values_of workspace provider saved encrypted) vault.credentials;
      audits =
          vault.audits
          ++ audit_of saved.audit_id workspace saved.actor_user_id
              ("credential." ⧺ lower provider ⧺ ".saved")
              (("fingerprint", encrypted.fingerprint) ∷ ("status", saved.validation_status) ∷ [])
              saved.now
            ∷ [];
    })

  abbrev pub get : Uuid → String → Vault → Option Credential
  get workspace provider vault = find_first (of_provider workspace provider) vault.credentials

  abbrev pub revealed : Uuid → String → Option Credential → Result CredentialError (Option P)
  revealed workspace provider none = ok none
  revealed workspace provider (some row) = do
    payload ← decrypt sealing cipher workspace provider row.key_version row.nonce row.ciphertext
    ok (some payload)

  unfoldable pub reveal : Uuid → String → Vault → Result CredentialError (Option P)
  reveal workspace provider vault = revealed workspace provider (get workspace provider vault)

-- `CredentialStore.delete`
unfoldable pub delete : Uuid → String → Uuid → Uuid → Datetime → Vault → Vault
delete workspace provider actor audit_id now vault = record {
  credentials = keep (λ row. not (of_provider workspace provider row)) vault.credentials;
  audits =
      vault.audits
      ++ audit_of audit_id workspace actor ("credential." ⧺ lower provider ⧺ ".deleted") [] now
        ∷ [];
}
