-- ===== src/Security/Store/RoundTrip.antt =====
-- What is saved is revealed (packages/security/store.py), also after the keys were rotated.
use alpha_desk.Base.{
  ◌≡◌, refl, sym, ap, ◌∙◌, subst, true, false, ◌&&◌, Option, none, some, String, List, [], ◌∷◌,
  find_first, str_eq, str_eq_iff, str_eq_self, if◌then◌else◌, Bool-cases, inl, inr, &&-parts,
}
use alpha_desk.Base.Dict.{lookup}
use alpha_desk.Base.Results.{ok, ◌>>=◌, bind-ok, ok-injective, err≢ok}
use alpha_desk.Domain.Workflow.{Uuid}
use alpha_desk.Security.Credentials.{
  Sealing, SealingLaws, CredentialError, EncryptedCredential, CredentialCipher, associated_data,
  sealed, encrypt_under, encrypt, decrypt,
}
use alpha_desk.Security.Store.{
  Credential, Vault, of_provider, Saved, values_of, overwritten, upsert, save, revealed, reveal,
}

-- The row carries what was encrypted.
abbrev Carries : Credential → Credential → Type 0
Carries row values =
    (row.key_version ≡ values.key_version)
    × (row.nonce ≡ values.nonce)
    × (row.ciphertext ≡ values.ciphertext)

upsert-finds :
    (values : Credential) (rows : List Credential)
    → (row : Credential) × (find_first
          (of_provider values.workspace_id values.provider)
          (upsert values rows)
        ≡ some row)
      × Carries row values
upsert-finds values [] = (
  values,
  rw (str_eq_self values.workspace_id, str_eq_self values.provider) refl,
  (refl, refl, refl),
)
upsert-finds values (row ∷ rows) =
    elim (Bool-cases (of_provider values.workspace_id values.provider row)) [
      | inl here ↦ (
        overwritten values row,
        rw (here, str_eq_self values.workspace_id, str_eq_self values.provider) refl,
        (refl, refl, refl),
      )
      | inr there ↦
          let (found, is_there, carries) = upsert-finds values rows in
          (found, rw (there, there) is_there, carries)
    ]

-- Another workspace, or another provider.
abbrev IsElsewhere : Uuid → String → Uuid → String → Type 0
IsElsewhere workspace provider workspace' provider' =
    (str_eq workspace workspace' && str_eq provider provider') ≡ false

elsewhere-row :
    (workspace workspace' : Uuid) (provider provider' : String) (row : Credential)
    → IsElsewhere workspace provider workspace' provider'
    → of_provider workspace provider row ≡ true
    → of_provider workspace' provider' row ≡ false
elsewhere-row workspace workspace' provider provider' row apart here =
    let (w, p) = &&-parts (str_eq row.workspace_id workspace) _ here in
    let w' = (str_eq_iff row.workspace_id workspace).0 w in
    let p' = (str_eq_iff row.provider provider).0 p in
    ap (λ i. str_eq i workspace' && str_eq row.provider provider') w'
    ∙ (ap (λ i. str_eq workspace workspace' && str_eq i provider') p' ∙ apart)

upsert_elsewhere :
    (values : Credential) (workspace : Uuid) (provider : String) (rows : List Credential)
    → IsElsewhere values.workspace_id values.provider workspace provider
    → find_first (of_provider workspace provider) (upsert values rows)
      ≡ find_first (of_provider workspace provider) rows
upsert_elsewhere values workspace provider [] apart = rw apart refl
upsert_elsewhere values workspace provider (row ∷ rows) apart =
    elim (Bool-cases (of_provider values.workspace_id values.provider row)) [
      | inl here ↦
          rw
            (
              here,
              apart,
              elsewhere-row values.workspace_id workspace values.provider provider row apart here,
            )
            refl
      | inr there ↦ rw there (
          ap (λ rest. if of_provider workspace provider row then some row else rest)
            (upsert_elsewhere values workspace provider rows apart))
    ]

module _ {P K : Type 0} (sealing : Sealing P K) (laws : SealingLaws sealing) where
  under-ok :
      (workspace : Uuid) (provider version : String) (payload : P) (nonce : String)
      (e : EncryptedCredential) (found : Option K)
      → encrypt_under sealing workspace provider version payload nonce found ≡ ok e
      → (key : K) × (found ≡ some key)
        × (sealed sealing key workspace provider version payload nonce ≡ e)
  under-ok workspace provider version payload nonce e none h = absurd (err≢ok h)
  under-ok workspace provider version payload nonce e (some key) h =
      (key, refl, ok-injective {E = CredentialError} _ e h)

  encrypt-ok :
      (cipher : CredentialCipher K) (workspace : Uuid) (provider : String) (payload : P)
      (nonce : String) (e : EncryptedCredential)
      → encrypt sealing cipher workspace provider payload nonce ≡ ok e
      → (key : K) × (lookup cipher.active_version cipher.keys ≡ some key)
        × (sealed sealing key workspace provider cipher.active_version payload nonce ≡ e)
  unfolding encrypt
  encrypt-ok cipher workspace provider payload nonce e h =
      under-ok workspace provider cipher.active_version payload nonce e
        (lookup cipher.active_version cipher.keys) h

  -- The same key opens what it sealed, in whatever keyring it stands under its version.
  decrypt-sealed :
      (cipher : CredentialCipher K) (workspace : Uuid) (provider version : String) (payload : P)
      (nonce : String) (key : K)
      → lookup version cipher.keys ≡ some key
      → decrypt sealing cipher workspace provider version nonce
          (sealed sealing key workspace provider version payload nonce).ciphertext
        ≡ ok payload
  unfolding decrypt
  decrypt-sealed cipher workspace provider version payload nonce key there =
      rw
        (
          there,
          laws.opens key nonce (sealing.json_text payload)
              (associated_data sealing workspace provider version),
          laws.reads payload,
        )
        refl

  module _ (cipher cipher' : CredentialCipher K) (workspace : Uuid) (provider : String)
      (saved : Saved P) (vault vault' : Vault)
      (kept : lookup cipher.active_version cipher'.keys ≡ lookup cipher.active_version cipher.keys)
      (done : save sealing cipher workspace provider saved vault ≡ ok vault') where
    save-ok :
        (e : EncryptedCredential) × (encrypt sealing cipher workspace provider saved.secret_payload
            saved.nonce
          ≡ ok e)
        × (upsert (values_of workspace provider saved e) vault.credentials ≡ vault'.credentials)
    unfolding save
    save-ok =
        let (e, sealed_as, h) =
          bind-ok (encrypt sealing cipher workspace provider saved.secret_payload saved.nonce) _
            done in
        (e, sealed_as, ap (λ v. v.credentials) (ok-injective {E = CredentialError} _ vault' h))

    reveal_here : reveal sealing cipher' workspace provider vault' ≡ ok (some saved.secret_payload)
    unfolding reveal
    reveal_here =
        let (e, sealed_as, rows) = save-ok in
        let (key, there, same) =
          encrypt-ok cipher workspace provider saved.secret_payload saved.nonce e sealed_as in
        let (row, found, (version, nonce, ciphertext)) =
          upsert-finds (values_of workspace provider saved e) vault.credentials in
        let found' : find_first (of_provider workspace provider) vault'.credentials ≡ some row =
          ap (find_first (of_provider workspace provider)) (sym rows) ∙ found in
        let opened =
          decrypt-sealed cipher' workspace provider cipher.active_version saved.secret_payload
            saved.nonce key (kept ∙ there) in
        rw found' (
          ap (λ r. r >>= (λ payload. ok (some payload)))
            (ap (λ v. decrypt sealing cipher' workspace provider v row.nonce row.ciphertext)
                (version ∙ sym (ap (λ s. s.key_version) same))
              ∙ (ap
                    (λ n.
                      decrypt sealing cipher' workspace provider cipher.active_version n
                        row.ciphertext)
                    (nonce ∙ sym (ap (λ s. s.nonce) same))
                  ∙ (ap
                        (λ c.
                          decrypt sealing cipher' workspace provider cipher.active_version
                            saved.nonce c)
                        (ciphertext ∙ sym (ap (λ s. s.ciphertext) same))
                      ∙ opened))))

    reveal_elsewhere :
        (workspace' : Uuid) (provider' : String)
        → IsElsewhere workspace provider workspace' provider'
        → reveal sealing cipher' workspace' provider' vault'
          ≡ reveal sealing cipher' workspace' provider' vault
    unfolding reveal
    reveal_elsewhere workspace' provider' apart =
        let (e, _, rows) = save-ok in
        ap (revealed sealing cipher' workspace' provider') (
          ap (find_first (of_provider workspace' provider')) (sym rows)
          ∙ upsert_elsewhere (values_of workspace provider saved e) workspace' provider'
              vault.credentials apart)

    -- After a credential was saved, that workspace and provider reveal the payload, and every other
    -- reveals what it did before, whatever was stored there. The reader's keys may be others than
    -- the writer's, as after a rotation, as long as the version that was active is the same key.
    pub reveal-save :
        (workspace' : Uuid) (provider' : String)
        → reveal sealing cipher' workspace' provider' vault' ≡ (
            if str_eq workspace workspace' && str_eq provider provider'
            then ok (some saved.secret_payload)
            else reveal sealing cipher' workspace' provider' vault)
    reveal-save workspace' provider' =
        elim (Bool-cases (str_eq workspace workspace' && str_eq provider provider')) [
          | inl here ↦
              let (w, p) = &&-parts (str_eq workspace workspace') _ here in
              let w' = (str_eq_iff workspace workspace').0 w in
              let p' = (str_eq_iff provider provider').0 p in
              rw here (
                subst
                  (λ i. reveal sealing cipher' i provider' vault' ≡ ok (some saved.secret_payload))
                  w'
                  (subst
                    (λ i.
                      reveal sealing cipher' workspace i vault' ≡ ok (some saved.secret_payload))
                    p' reveal_here))
          | inr there ↦ rw there (reveal_elsewhere workspace' provider' there)
        ]
