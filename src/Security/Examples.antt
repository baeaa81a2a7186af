-- ===== src/Security/Examples.antt =====
-- A vault of two workspaces, with a transparent cipher, through a rotation of the keys.
use alpha_desk.Base.{◌≡◌, refl, true, ◌&&◌, some, String, [], ◌∷◌, str_eq, if◌then◌else◌}
use alpha_desk.Base.Texts.{strip}
use alpha_desk.Base.Results.{Result, ok, err}
use alpha_desk.Security.Credentials.{
  Sealing, SealingLaws, CredentialError, CredentialCipher, new_cipher, encrypt,
}
use alpha_desk.Security.Store.{Saved, Vault, save, reveal}
use alpha_desk.Security.Store.RoundTrip.{reveal-save}
use alpha_desk.Samples.{noon}

abbrev sealing : Sealing String String
sealing = record {
  json_text = λ payload. payload;
  json_value = λ text. some text;
  encrypt = λ key nonce text data'. text;
  decrypt = λ key nonce ciphertext data'. some ciphertext;
  digest = λ text. text;
  decode_key = λ encoded. some encoded;
  is_32_bytes = λ key. true;
}

abbrev laws : SealingLaws sealing
laws = record { reads = λ payload. refl; opens = λ key nonce text data'. refl }

abbrev old_cipher : CredentialCipher String
old_cipher = record { keys = ("v1", "k1") ∷ []; active_version = "v1" }

abbrev rotated : CredentialCipher String
rotated = record { keys = ("v1", "k1") ∷ ("v2", "k2") ∷ []; active_version = "v2" }

parses : new_cipher sealing "v1:k1, v2:k2," ≡ ok rotated
unfolding new_cipher strip
parses = refl

abbrev saved : Saved String
saved = record {
  actor_user_id = "u1";
  secret_payload = "secret";
  configuration = [];
  validation_status = "VERIFIED";
  enabled = true;
  credential_id = "c1";
  audit_id = "a1";
  nonce = "n1";
  now = noon 0;
}

abbrev empty_vault : Vault
empty_vault = record { credentials = []; audits = [] }

abbrev vault_of : Result CredentialError Vault → Vault
vault_of (ok vault) = vault
vault_of (err _) = empty_vault

saves :
    save sealing old_cipher "w1" "ALPACA" saved empty_vault
    ≡ ok (vault_of (save sealing old_cipher "w1" "ALPACA" saved empty_vault))
unfolding save encrypt
saves = refl

reveal-save_example :
    reveal sealing rotated "w1" "ALPACA"
      (vault_of (save sealing old_cipher "w1" "ALPACA" saved empty_vault))
    ≡ (if str_eq "w1" "w1" && str_eq "ALPACA" "ALPACA"
        then ok (some "secret")
        else reveal sealing rotated "w1" "ALPACA" empty_vault)
reveal-save_example =
    reveal-save sealing laws old_cipher rotated "w1" "ALPACA" saved empty_vault
      (vault_of (save sealing old_cipher "w1" "ALPACA" saved empty_vault)) refl saves "w1" "ALPACA"
