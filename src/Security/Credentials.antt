-- ===== src/Security/Credentials.antt =====
-- packages/security/credentials.py: the cipher of credentials. Bytes are texts. AES-GCM, base64 and
-- JSON are the functions of a record; `SealingLaws` has what is relied on.
use Prim.Native.Char.{Char, code}
use alpha_desk.Base.{ℕ, ◌≡◌, Bool, Option, none, some, String, List, [], ◌∷◌, ◌==◌, if◌then◌else◌}
use alpha_desk.Base.Dict.{Dict, lookup, insert}
use alpha_desk.Base.Results.{Result, ok, err, ◌>>=◌}
use alpha_desk.Base.Texts.{◌⧺◌, strip, is_empty}
use alpha_desk.Domain.Workflow.{Uuid}

-- The functions over payloads `P` and keys `K`.
pub record Sealing (P K : Type 0) : Type 0 where
  pub json_text : P → String
  pub json_value : String → Option P
  pub encrypt : K → String → String → String → String
  pub decrypt : K → String → String → String → Option String
  pub digest : String → String
  pub decode_key : String → Option K
  pub is_32_bytes : K → Bool

pub record SealingLaws {P K : Type 0} (sealing : Sealing P K) : Type 0 where
  -- `json.loads(json.dumps(payload))` is the payload.
  pub reads : (payload : P) → sealing.json_value (sealing.json_text payload) ≡ some payload
  -- Decryption under the same key, nonce and associated data undoes encryption.
  pub opens :
      (key : K) (nonce text data' : String)
      → sealing.decrypt key nonce (sealing.encrypt key nonce text data') data' ≡ some text

-- The messages of `CredentialConfigurationError`, and `InvalidTag` of the cryptography library.
pub data CredentialError : Type 0 where
  key_format key_length no_keys key_unavailable invalid_payload invalid_tag : CredentialError

pub record EncryptedCredential : Type 0 where
  pub key_version : String
  pub nonce : String
  pub ciphertext : String
  pub fingerprint : String

pub record CredentialCipher (K : Type 0) : Type 0 where
  pub keys : Dict K
  pub active_version : String

-- `s.split(separator)` at every place, and `s.split(":", 1)` in two.
abbrev push_front : Char → List String → List String
push_front c [] = String.◌∷◌ c String.[] ∷ []
push_front c (part ∷ parts) = String.◌∷◌ c part ∷ parts

abbrev pub split : ℕ → String → List String
split separator String.[] = "" ∷ []
split separator (String.◌∷◌ c s) =
    let parts = split separator s in if code c == separator then "" ∷ parts else push_front c parts

abbrev pub split_once : ℕ → String → Option (String × String)
split_once separator String.[] = none
split_once separator (String.◌∷◌ c s) =
    let rest = split_once separator s in
    if code c == separator
    then some ("", s)
    else elim rest [ none ↦ none | some (before, after) ↦ some (String.◌∷◌ c before, after) ]

-- The version that was inserted last: `list(parsed)[-1]`.
abbrev pub last_key : {K : Type 0} → Dict K → Option String
last_key [] = none
last_key ((version, _) ∷ []) = some version
last_key (_ ∷ entry ∷ entries) = last_key (entry ∷ entries)

module _ {P K : Type 0} (sealing : Sealing P K) where
  abbrev pub key_of : String → Result CredentialError (String × K)
  key_of item = elim (split_once b':' item) [
    | none ↦ err key_format
    | some (version, encoded) ↦ elim (sealing.decode_key encoded) [
      | none ↦ err key_format
      | some key ↦ if sealing.is_32_bytes key then ok (version, key) else err key_length
    ]
  ]

  -- The loop of the constructor.
  abbrev pub parse_keys : List String → Dict K → Result CredentialError (Dict K)
  parse_keys [] parsed = ok parsed
  parse_keys (item ∷ items) parsed =
      let skipped = parse_keys items parsed in
      let taken : Result CredentialError (Dict K) = (do
        (version, key) ← key_of (strip item)
        parse_keys items (insert version key parsed)) in
      if is_empty (strip item) then skipped else taken

  abbrev pub cipher_of : Dict K → Result CredentialError (CredentialCipher K)
  cipher_of keys = elim (last_key keys) [
    | none ↦ err no_keys
    | some version ↦ ok (record { keys = keys; active_version = version })
  ]

  -- The constructor of `CredentialCipher`.
  unfoldable pub new_cipher : String → Result CredentialError (CredentialCipher K)
  new_cipher encoded_keys = do parsed ← parse_keys (split b',' encoded_keys) []; cipher_of parsed

  -- `_aad`
  abbrev pub associated_data : Uuid → String → String → String
  associated_data workspace provider version =
      "alphadesk:" ⧺ workspace ⧺ ":" ⧺ provider ⧺ ":" ⧺ version

  abbrev pub sealed : K → Uuid → String → String → P → String → EncryptedCredential
  sealed key workspace provider version payload nonce = record {
    key_version = version;
    nonce = nonce;
    ciphertext =
        sealing.encrypt key nonce (sealing.json_text payload)
          (associated_data workspace provider version);
    fingerprint = sealing.digest (sealing.json_text payload);
  }

  abbrev pub encrypt_under :
      Uuid → String → String → P → String → Option K → Result CredentialError EncryptedCredential
  encrypt_under workspace provider version payload nonce none = err key_unavailable
  encrypt_under workspace provider version payload nonce (some key) =
      ok (sealed key workspace provider version payload nonce)

  -- `encrypt`, with the random nonce as an argument. The active version is a key of the dict.
  unfoldable pub encrypt :
      CredentialCipher K → Uuid → String → P → String → Result CredentialError EncryptedCredential
  encrypt cipher workspace provider payload nonce =
      encrypt_under workspace provider cipher.active_version payload nonce
        (lookup cipher.active_version cipher.keys)

  abbrev value_of : Option P → Result CredentialError P
  value_of none = err invalid_payload
  value_of (some payload) = ok payload

  abbrev pub payload_of : Option String → Result CredentialError P
  payload_of none = err invalid_tag
  payload_of (some text) = value_of (sealing.json_value text)

  abbrev pub decrypt_under :
      Uuid → String → String → String → String → Option K → Result CredentialError P
  decrypt_under workspace provider version nonce ciphertext none = err key_unavailable
  decrypt_under workspace provider version nonce ciphertext (some key) =
      payload_of (sealing.decrypt key nonce ciphertext (associated_data workspace provider version))

  unfoldable pub decrypt :
      CredentialCipher K → Uuid → String → String → String → String → Result CredentialError P
  decrypt cipher workspace provider version nonce ciphertext =
      decrypt_under workspace provider version nonce ciphertext (lookup version cipher.keys)
