-- ===== src/Broker/Ids.antt =====
-- The sets of identifiers that packages/broker/projections.py compares: a set is a list of which
-- only the members count.
use alpha_desk.Base.{
  ℕ, ◌+◌, ◌≡◌, ◌↔◌, refl, sym, Bool, true, false, not, String, List, [], ◌∷◌, arith, map, keep,
  length, str_eq, str_eq_iff, str_eq_self, if◌then◌else◌, Bool-cases, inl, inr,
}
use alpha_desk.Base.Dict.{Dict, contains, insert, lookup-insert}

-- `k in set(ids)`
abbrev pub mem : String → List String → Bool
mem k [] = false
mem k (j ∷ ids) = if str_eq j k then true else mem k ids

abbrev pub distinct : List String → List String
distinct [] = []
distinct (j ∷ ids) = let rest = distinct ids in if mem j ids then rest else j ∷ rest

-- `len(set(a) - set(b))`
abbrev pub missing : List String → List String → ℕ
missing a b = length (keep (λ k. not (mem k b)) (distinct a))

-- `len(set(a) ^ set(b))`
abbrev pub symmetric_difference : List String → List String → ℕ
symmetric_difference a b = missing a b + missing b a

-- No identifier stands twice: what a primary key asks of the rows.
abbrev pub is_unique : List String → Bool
is_unique [] = true
is_unique (j ∷ ids) = if mem j ids then false else is_unique ids

missing-within :
    (a b : List String) → missing a b ≡ 0 → (k : String) → mem k a ≡ true → mem k b ≡ true
missing-within [] b h k m = cc
missing-within (j ∷ a) b h k m = elim (Bool-cases (mem j a)) [
  | inl again ↦
      let h' : missing a b ≡ 0 = ground arith in
      elim (Bool-cases (str_eq j k)) [
        | inl same ↦ missing-within a b h' k (rw (← (str_eq_iff j k).0 same) again)
        | inr other ↦ missing-within a b h' k (ground arith)
      ]
  | inr fresh ↦ elim (Bool-cases (mem j b)) [
    | inl there ↦
        let h' : missing a b ≡ 0 = ground arith in
        elim (Bool-cases (str_eq j k)) [
          | inl same ↦ rw (← (str_eq_iff j k).0 same) there
          | inr other ↦ missing-within a b h' k (ground arith)
        ]
    | inr gone ↦ ground arith
  ]
]

within-missing :
    (a b : List String) → ((k : String) → mem k a ≡ true → mem k b ≡ true) → missing a b ≡ 0
within-missing [] b h = refl
within-missing (j ∷ a) b h =
    let there : mem j b ≡ true = h j (rw (str_eq_self j) refl) in
    let rest : missing a b ≡ 0 = within-missing a b (λ k m. h k (ground arith)) in ground arith

same_Bool : (a b : Bool) → (a ≡ true → b ≡ true) → (b ≡ true → a ≡ true) → a ≡ b
same_Bool true b f g = sym (f refl)
same_Bool false true f g = g refl
same_Bool false false f g = refl

-- The symmetric difference is empty just if the sets have the same members.
pub symmetric_difference_zero :
    (a b : List String) → (symmetric_difference a b ≡ 0) ↔ ((k : String) → mem k a ≡ mem k b)
symmetric_difference_zero a b = (
  λ h k.
      same_Bool (mem k a) (mem k b) (missing-within a b (omega arith) k)
        (missing-within b a (omega arith) k),
  λ h.
      let l = within-missing a b (λ k m. rw (← h k) m) in
      let r = within-missing b a (λ k m. rw (h k) m) in omega arith,
)

module _ {ℓ} {A : Type ℓ} where
  -- `{key(x): x for x in xs}`, on top of a dict.
  abbrev pub insert_all : (A → String) → List A → Dict A → Dict A
  insert_all key [] d = d
  insert_all key (x ∷ xs) d = insert_all key xs (insert (key x) x d)

  abbrev pub keys : Dict A → List String
  keys d = map (λ e. e.0) d

  pub mem-keys : (k : String) (d : Dict A) → mem k (keys d) ≡ contains k d
  mem-keys k [] = refl
  mem-keys k ((j, v) ∷ d) = ground (arith, mem-keys k d)

  pub contains-insert_all :
      (key : A → String) (k : String) (xs : List A) (d : Dict A)
      → contains k (insert_all key xs d) ≡ (if mem k (map key xs) then true else contains k d)
  contains-insert_all key k [] d = refl
  contains-insert_all key k (x ∷ xs) d =
      rw (contains-insert_all key k xs (insert (key x) x d), lookup-insert (key x) k x d)
        (ground arith)
