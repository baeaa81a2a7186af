-- ===== src/Base/Keys.antt =====
-- Rows of a table under a unique key: `key` is the text of the key, `value` another column.
use alpha_desk.Base.{
  ◌≡◌, refl, sym, ap, ◌∙◌, Bool, true, false, ◌&&◌, ◌||◌, String, List, [], ◌∷◌, ◌++◌, any, str_eq,
  str_eq_iff, str_eq_self, str_eq_sym, subst, some, map, find_first, Bool-cases, inl, inr, arith,
  or-neither,
}

module _ {A : Type 0} (key : A → String) where
  abbrev pub has_key : String → List A → Bool
  has_key k = any (λ row. str_eq (key row) k)

  abbrev pub IsKeyed : List A → Type 0
  IsKeyed [] = Unit
  IsKeyed (row ∷ rows) = (has_key (key row) rows ≡ false) × IsKeyed rows

  module _ (value : A → String) where
    abbrev pub maps : String → String → A → Bool
    maps k v row = str_eq (key row) k && str_eq (value row) v

    -- Some row has this key and this value.
    abbrev pub Has : String → String → List A → Type 0
    Has k v rows = any (maps k v) rows ≡ true

    Has-has_key : (k v : String) (rows : List A) → Has k v rows → has_key k rows ≡ true
    Has-has_key k v [] h = cc
    Has-has_key k v (row ∷ rows) h = elim (Bool-cases (str_eq (key row) k)) [
      | inl here ↦ rw here refl
      | inr there ↦ rw there (Has-has_key k v rows (rw there at h))
    ]

    Has-head :
        (k v : String) (row : A) (rows : List A)
        → str_eq (key row) k ≡ true
        → has_key (key row) rows ≡ false
        → Has k v (row ∷ rows)
        → value row ≡ v
    Has-head k v row rows here absent h = elim (Bool-cases (str_eq (value row) v)) [
      | inl same ↦ (str_eq_iff (value row) v).0 same
      | inr differs ↦
          let later : Has k v rows = rw (here, differs) at h in
          let e = (str_eq_iff (key row) k).0 here in
          let wrong : true ≡ false =
            sym (Has-has_key k v rows later) ∙ (ap (λ i. has_key i rows) (sym e) ∙ absent) in
          cc
    ]

    -- A key has one value.
    pub Has-unique :
        (k v w : String) (rows : List A) → IsKeyed rows → Has k v rows → Has k w rows → v ≡ w
    Has-unique k v w [] d h h' = cc
    Has-unique k v w (row ∷ rows) (absent, d) h h' = elim (Bool-cases (str_eq (key row) k)) [
      | inl here ↦ sym (Has-head k v row rows here absent h) ∙ Has-head k w row rows here absent h'
      | inr there ↦ Has-unique k v w rows d (rw there at h) (rw there at h')
    ]

    pub Has-append : (k v : String) (xs ys : List A) → Has k v xs → Has k v (xs ++ ys)
    Has-append k v [] ys h = cc
    Has-append k v (x ∷ xs) ys h = elim (Bool-cases (maps k v x)) [
      | inl here ↦ rw here refl
      | inr there ↦ rw there (Has-append k v xs ys (rw there at h))
    ]

    pub Has-last : (rows : List A) (row : A) → Has (key row) (value row) (rows ++ row ∷ [])
    Has-last [] row = rw (str_eq_self (key row), str_eq_self (value row)) refl
    Has-last (r ∷ rows) row = elim (Bool-cases (maps (key row) (value row) r)) [
      | inl here ↦ rw here refl
      | inr there ↦ rw there (Has-last rows row)
    ]

    pub find_first-Has :
        (p : A → Bool) (rows : List A) (row : A)
        → find_first p rows ≡ some row
        → Has (key row) (value row) rows
    find_first-Has p [] row h = cc
    find_first-Has p (r ∷ rows) row h = elim (Bool-cases (p r)) [
      | inl here ↦
          let same : r ≡ row = ground arith in
          subst (λ x. Has (key x) (value x) (r ∷ rows)) same
            (rw (str_eq_self (key r), str_eq_self (value r)) refl)
      | inr there ↦
          let later = find_first-Has p rows row (ground arith) in
          elim (Bool-cases (maps (key row) (value row) r)) [
            | inl here ↦ rw here refl
            | inr other ↦ rw other later
          ]
    ]

    -- An update of other columns.
    module _ (f : A → A) (same_key : (row : A) → key (f row) ≡ key row)
        (same_value : (row : A) → value (f row) ≡ value row) where
      pub Has-map : (k v : String) (rows : List A) → Has k v rows → Has k v (map f rows)
      Has-map k v [] h = cc
      Has-map k v (row ∷ rows) h = elim (Bool-cases (maps k v row)) [
        | inl here ↦ rw (same_key row, same_value row, here) refl
        | inr there ↦ rw (same_key row, same_value row, there) (Has-map k v rows (rw there at h))
      ]

  has_key-map :
      (f : A → A)
      → ((row : A) → key (f row) ≡ key row)
      → (k : String) (rows : List A) → has_key k (map f rows) ≡ has_key k rows
  has_key-map f same k [] = refl
  has_key-map f same k (row ∷ rows) =
      rw (same row) (ap (λ b. str_eq (key row) k || b) (has_key-map f same k rows))

  pub IsKeyed-map :
      (f : A → A)
      → ((row : A) → key (f row) ≡ key row)
      → (rows : List A) → IsKeyed rows
      → IsKeyed (map f rows)
  IsKeyed-map f same [] d = tt
  IsKeyed-map f same (row ∷ rows) (absent, d) =
      (rw (same row) (has_key-map f same (key row) rows ∙ absent), IsKeyed-map f same rows d)

  has_key-append :
      (k : String) (rows : List A) (row : A)
      → has_key k (rows ++ row ∷ []) ≡ (has_key k rows || str_eq (key row) k)
  has_key-append k [] row = ground arith
  has_key-append k (r ∷ rows) row = let rest = has_key-append k rows row in ground arith

  pub IsKeyed-append :
      (rows : List A) (row : A)
      → has_key (key row) rows ≡ false
      → IsKeyed rows
      → IsKeyed (rows ++ row ∷ [])
  IsKeyed-append [] row fresh d = (refl, tt)
  IsKeyed-append (r ∷ rows) row fresh (first, d) =
      let (apart, rest) = or-neither (str_eq (key r) (key row)) _ fresh in
      (
        has_key-append (key r) rows row
            ∙ (ap (λ b. b || str_eq (key row) (key r)) first
                ∙ (str_eq_sym (key row) (key r) ∙ apart)),
        IsKeyed-append rows row rest d,
      )
