-- ===== src/Auth/Registration/Uses.antt =====
-- What happens to invitations over time (packages/auth/registration.py, packages/auth/invitations.py
-- and disable_invitation of apps/api/routes/admin.py): no invitation admits more users than allowed.
use alpha_desk.Base.{
  ℕ, suc, ◌≤◌, ◌<◌, ◌≡◌, inl, inr, refl, sym, ap, ◌∙◌, Bool, true, false, not, ◌&&◌, ◌||◌, some,
  List, [], ◌∷◌, ◌++◌, any, find_first, All, str_eq, str_eq_iff, str_eq_self, str_eq_sym,
  or-neither, All-append, All-map, subst, arith, if◌then◌else◌, Bool-cases, is_some,
}
use alpha_desk.Domain.Time.{Datetime}
use alpha_desk.Domain.Workflow.{Uuid}
use alpha_desk.Domain.Accounts.{Invitation, Redemption, Tables}
use alpha_desk.Auth.Registration.{with_redemption, redeem}

-- The insert of `create`: the identifier and the hash are unique keys.
abbrev pub same_invitation : Invitation → Invitation → Bool
same_invitation row another =
    str_eq row.invitation_id another.invitation_id || str_eq row.token_hash another.token_hash

unfoldable pub insert_invitation : Invitation → Tables → Tables
insert_invitation row db =
    if any (same_invitation row) db.invitations
    then db
    else record db { invitations = db.invitations ++ row ∷ [] }

-- The update of `disable_invitation`.
abbrev pub disable : Uuid → Datetime → List Invitation → List Invitation
disable id now [] = []
disable id now (row ∷ rows) =
    record row {
      disabled_at =
          if str_eq row.invitation_id id && not (is_some row.disabled_at)
          then some now
          else row.disabled_at;
    }
    ∷ disable id now rows

-- The redemptions of an invitation.
abbrev pub redeemed : Uuid → List Redemption → ℕ
redeemed id [] = 0
redeemed id (r ∷ rs) =
    let rest = redeemed id rs in if str_eq r.invitation_id id then suc rest else rest

abbrev pub has_id : Uuid → List Invitation → Bool
has_id id = any (λ row. str_eq row.invitation_id id)

abbrev pub Distinct : List Invitation → Type 0
Distinct [] = Unit
Distinct (row ∷ rows) = (has_id row.invitation_id rows ≡ false) × Distinct rows

-- Every invitation counts its redemptions, and they are no more than allowed; every redemption is of
-- an invitation that is there, and no two invitations have one identifier.
abbrev pub Fits : List Redemption → Invitation → Type 0
Fits redemptions row =
    (row.use_count ≡ redeemed row.invitation_id redemptions) × (row.use_count ≤ row.max_uses)

abbrev pub Known : List Invitation → Redemption → Type 0
Known rows r = has_id r.invitation_id rows ≡ true

pub record WithinUses (db : Tables) : Type 0 where
  pub fits : All (Fits db.redemptions) db.invitations
  pub known : All (Known db.invitations) db.redemptions
  pub distinct : Distinct db.invitations

redeemed-append :
    (id : Uuid) (rs : List Redemption) (r : Redemption)
    → redeemed id (rs ++ r ∷ [])
      ≡ (if str_eq r.invitation_id id then suc (redeemed id rs) else redeemed id rs)
redeemed-append id [] r = refl
redeemed-append id (q ∷ rs) r = let rest = redeemed-append id rs r in ground arith

has_id-redeem : (id k : Uuid) (rows : List Invitation) → has_id id (redeem k rows) ≡ has_id id rows
has_id-redeem id k [] = refl
has_id-redeem id k (row ∷ rows) = let rest = has_id-redeem id k rows in ground arith

has_id-disable :
    (id k : Uuid) (now : Datetime) (rows : List Invitation)
    → has_id id (disable k now rows) ≡ has_id id rows
has_id-disable id k now [] = refl
has_id-disable id k now (row ∷ rows) = let rest = has_id-disable id k now rows in ground arith

has_id-append :
    (id : Uuid) (rows : List Invitation) (row : Invitation)
    → has_id id (rows ++ row ∷ []) ≡ (has_id id rows || str_eq row.invitation_id id)
has_id-append id [] row = ground arith
has_id-append id (r ∷ rows) row = let rest = has_id-append id rows row in ground arith

redeem-Distinct : (k : Uuid) (rows : List Invitation) → Distinct rows → Distinct (redeem k rows)
redeem-Distinct k [] d = tt
redeem-Distinct k (row ∷ rows) (fresh, d) =
    (has_id-redeem row.invitation_id k rows ∙ fresh, redeem-Distinct k rows d)

disable-Distinct :
    (k : Uuid) (now : Datetime) (rows : List Invitation)
    → Distinct rows
    → Distinct (disable k now rows)
disable-Distinct k now [] d = tt
disable-Distinct k now (row ∷ rows) (fresh, d) =
    (has_id-disable row.invitation_id k now rows ∙ fresh, disable-Distinct k now rows d)

-- An invitation that was found is there, and its row is the only one with its identifier.
find_first-has_id :
    (p : Invitation → Bool) (rows : List Invitation) (found : Invitation)
    → find_first p rows ≡ some found
    → has_id found.invitation_id rows ≡ true
find_first-has_id p [] found h = cc
find_first-has_id p (row ∷ rows) found h = elim (Bool-cases (p row)) [
  | inl here ↦
      let same : row ≡ found = ground arith in
      subst (λ f. has_id f.invitation_id (row ∷ rows) ≡ true) same
        (ap (λ b. b || has_id row.invitation_id rows) (str_eq_self row.invitation_id))
  | inr there ↦ let rest = find_first-has_id p rows found (ground arith) in ground arith
]

abbrev IsUsableIf : Uuid → Invitation → Type 0
IsUsableIf id row = str_eq row.invitation_id id ≡ true → row.use_count < row.max_uses

absent-usable :
    (id : Uuid) (rows : List Invitation) → has_id id rows ≡ false → All (IsUsableIf id) rows
absent-usable id [] h = tt
absent-usable id (row ∷ rows) h =
    let rest = absent-usable id rows (ground arith) in (λ same. ground arith, rest)

found-usable :
    (p : Invitation → Bool) (rows : List Invitation) (found : Invitation)
    → Distinct rows
    → find_first p rows ≡ some found
    → found.use_count < found.max_uses
    → All (IsUsableIf found.invitation_id) rows
found-usable p [] found d h u = tt
found-usable p (row ∷ rows) found (fresh, d) h u = elim (Bool-cases (p row)) [
  | inl here ↦
      let same : row ≡ found = ground arith in
      subst (λ f. All (IsUsableIf f.invitation_id) (row ∷ rows)) same
        (
          λ _. subst (λ f. f.use_count < f.max_uses) (sym same) u,
          absent-usable row.invitation_id rows fresh,
        )
  | inr there ↦
      let later : find_first p rows ≡ some found = ground arith in
      let known = find_first-has_id p rows found later in
      (
        λ equal.
            let e = (str_eq_iff row.invitation_id found.invitation_id).0 equal in
            let wrong : true ≡ false = sym known ∙ (ap (λ i. has_id i rows) (sym e) ∙ fresh) in cc,
        found-usable p rows found d later u,
      )
]

-- The steps on the tables keep the invariant.
redeem-Fits :
    (id : Uuid) (r : Redemption) (rs : List Redemption) (rows : List Invitation)
    → r.invitation_id ≡ id
    → All (IsUsableIf id) rows
    → All (Fits rs) rows
    → All (Fits (rs ++ r ∷ [])) (redeem id rows)
redeem-Fits id r rs [] e u f = tt
redeem-Fits id r rs (row ∷ rows) e (usable, us) ((counted, within), fs) =
    let more = redeemed-append row.invitation_id rs r in
    let rest = redeem-Fits id r rs rows e us fs in
    elim (Bool-cases (str_eq row.invitation_id id)) [
      | inl this ↦
          let e' = (str_eq_iff row.invitation_id id).0 this in
          let hit : str_eq r.invitation_id row.invitation_id ≡ true =
            (str_eq_iff r.invitation_id row.invitation_id).1 (e ∙ sym e') in
          let below = usable this in rw this ((rw (more, hit) (ap suc counted), below), rest)
      | inr another ↦
          let missed : str_eq r.invitation_id row.invitation_id ≡ false =
            ap (λ i. str_eq i row.invitation_id) e ∙ (str_eq_sym id row.invitation_id ∙ another) in
          rw another ((rw (more, missed) counted, within), rest)
    ]

disable-Fits :
    (id : Uuid) (now : Datetime) (rs : List Redemption) (rows : List Invitation)
    → All (Fits rs) rows
    → All (Fits rs) (disable id now rows)
disable-Fits id now rs [] f = tt
disable-Fits id now rs (row ∷ rows) (fit, fs) = (fit, disable-Fits id now rs rows fs)

unknown-redeemed :
    (id : Uuid) (rows : List Invitation) (rs : List Redemption)
    → has_id id rows ≡ false
    → All (Known rows) rs
    → redeemed id rs ≡ 0
unknown-redeemed id rows [] absent k = refl
unknown-redeemed id rows (r ∷ rs) absent (known, ks) =
    let rest = unknown-redeemed id rows rs absent ks in
    elim (Bool-cases (str_eq r.invitation_id id)) [
      | inl same ↦
          let e = (str_eq_iff r.invitation_id id).0 same in
          let wrong : true ≡ false = sym known ∙ (ap (λ i. has_id i rows) e ∙ absent) in cc
      | inr another ↦ rw another rest
    ]

append-Distinct :
    (rows : List Invitation) (row : Invitation)
    → has_id row.invitation_id rows ≡ false
    → Distinct rows
    → Distinct (rows ++ row ∷ [])
append-Distinct [] row fresh d = (refl, tt)
append-Distinct (r ∷ rows) row fresh (first, d) =
    let (apart, rest) = or-neither (str_eq r.invitation_id row.invitation_id) _ fresh in
    (
      has_id-append r.invitation_id rows row
          ∙ (ap (λ b. b || str_eq row.invitation_id r.invitation_id) first
              ∙ (str_eq_sym row.invitation_id r.invitation_id ∙ apart)),
      append-Distinct rows row rest d,
    )

apart-has_id :
    (row : Invitation) (rows : List Invitation)
    → any (same_invitation row) rows ≡ false
    → has_id row.invitation_id rows ≡ false
apart-has_id row [] h = refl
apart-has_id row (r ∷ rows) h =
    let (here, rest) = or-neither (same_invitation row r) _ h in
    let (ids, _) = or-neither (str_eq row.invitation_id r.invitation_id) _ here in
    rw (str_eq_sym r.invitation_id row.invitation_id, ids) (apart-has_id row rows rest)

Known-append :
    (rows : List Invitation) (row : Invitation) (r : Redemption)
    → Known rows r
    → Known (rows ++ row ∷ []) r
Known-append rows row r h =
    has_id-append r.invitation_id rows row
    ∙ ap (λ b. b || str_eq row.invitation_id r.invitation_id) h

pub insert_invitation-WithinUses :
    (row : Invitation) (db : Tables)
    → row.use_count ≡ 0
    → WithinUses db
    → WithinUses (insert_invitation row db)
unfolding insert_invitation
insert_invitation-WithinUses row db unused w =
    elim (Bool-cases (any (same_invitation row) db.invitations)) [
      | inl clash ↦ rw clash w
      | inr apart ↦
          let absent = apart-has_id row db.invitations apart in
          let none_yet =
            unknown-redeemed row.invitation_id db.invitations db.redemptions absent w.known in
          rw apart (record {
            fits =
                All-append (Fits db.redemptions) db.invitations (row ∷ []) w.fits
                  ((unused ∙ sym none_yet, omega (arith, unused)), tt);
            known =
                All-map (Known db.invitations) (Known (db.invitations ++ row ∷ []))
                  (Known-append db.invitations row) db.redemptions w.known;
            distinct = append-Distinct db.invitations row absent w.distinct;
          })
    ]

pub with_redemption-WithinUses :
    (p : Invitation → Bool) (found : Invitation) (r : Redemption) (db db' : Tables)
    → find_first p db.invitations ≡ some found
    → found.use_count < found.max_uses
    → r.invitation_id ≡ found.invitation_id
    → db'.invitations ≡ db.invitations
    → db'.redemptions ≡ db.redemptions
    → WithinUses db
    → WithinUses (with_redemption r db')
with_redemption-WithinUses p found r db db' h u e same same' w =
    let usable =
      subst (λ i. All (IsUsableIf i) db.invitations) (sym e)
        (found-usable p db.invitations found w.distinct h u) in
    let there = ap (λ i. has_id i db.invitations) e ∙ find_first-has_id p db.invitations found h in
    let kept = λ (q : Redemption) (known : Known db.invitations q).
      has_id-redeem q.invitation_id r.invitation_id db.invitations ∙ known in
    rw (same, same')
      (record {
        fits = redeem-Fits r.invitation_id r db.redemptions db.invitations refl usable w.fits;
        known =
            All-append (Known (redeem r.invitation_id db.invitations)) db.redemptions (r ∷ [])
              (All-map (Known db.invitations) (Known (redeem r.invitation_id db.invitations)) kept
                db.redemptions w.known)
              (kept r there, tt);
        distinct = redeem-Distinct r.invitation_id db.invitations w.distinct;
      })

pub disable-WithinUses :
    (id : Uuid) (now : Datetime) (db : Tables)
    → WithinUses db
    → WithinUses (record db { invitations = disable id now db.invitations })
disable-WithinUses id now db w = record {
  fits = disable-Fits id now db.redemptions db.invitations w.fits;
  known =
      All-map (Known db.invitations) (Known (disable id now db.invitations))
        (λ r known. has_id-disable r.invitation_id id now db.invitations ∙ known) db.redemptions
        w.known;
  distinct = disable-Distinct id now db.invitations w.distinct;
}

-- Only these two tables matter.
pub same-WithinUses :
    (db db' : Tables)
    → (db'.invitations ≡ db.invitations) × (db'.redemptions ≡ db.redemptions)
    → WithinUses db
    → WithinUses db'
same-WithinUses db db' (invitations, redemptions) w = record {
  fits = rw (invitations, redemptions) w.fits;
  known = rw (invitations, redemptions) w.known;
  distinct = rw invitations w.distinct;
}
