-- ===== src/Base/Sorting.antt =====
-- Python's `sorted` and the database's `order by`: stable, by a Boolean order.
use alpha_desk.Base.{
  ◌≡◌, inl, inr, refl, Bool, true, false, List, [], ◌∷◌, if◌then◌else◌, Bool-cases,
}
use mathlib.Core.List.{Perm}
use mathlib.Core.List.Perm

module _ {A : Type 0} (leq : A → A → Bool) where
  abbrev pub insert_by : A → List A → List A
  insert_by x [] = x ∷ []
  insert_by x (y ∷ ys) = if leq x y then x ∷ y ∷ ys else y ∷ insert_by x ys

  abbrev pub order_by : List A → List A
  order_by [] = []
  order_by (x ∷ xs) = insert_by x (order_by xs)

  insert_by-Perm : (x : A) (ys : List A) → Perm (insert_by x ys) (x ∷ ys)
  insert_by-Perm x [] = Perm.refl _
  insert_by-Perm x (y ∷ ys) = elim (Bool-cases (leq x y)) [
    | inl below ↦ rw below (Perm.refl _)
    | inr above ↦ rw above (Perm.trans (Perm.cons y (insert_by-Perm x ys)) (Perm.swap x y ys))
  ]

  -- Nothing is lost and nothing is added.
  pub order_by-Perm : (xs : List A) → Perm (order_by xs) xs
  order_by-Perm [] = Perm.refl _
  order_by-Perm (x ∷ xs) =
      Perm.trans (insert_by-Perm x (order_by xs)) (Perm.cons x (order_by-Perm xs))

  -- Each is in order with the next.
  abbrev pub InOrder : List A → Type 0
  InOrder [] = Unit
  InOrder (x ∷ []) = Unit
  InOrder (x ∷ y ∷ ys) = (leq x y ≡ true) × InOrder (y ∷ ys)

  module _ (total : (x y : A) → leq x y ≡ false → leq y x ≡ true) where
    link :
        (b : Bool) (x y z : A) (us ws : List A)
        → leq y x ≡ true
        → leq y z ≡ true
        → InOrder (if b then x ∷ us else z ∷ ws)
        → InOrder (y ∷ (if b then x ∷ us else z ∷ ws))
    link true x y z us ws yx yz rest = (yx, rest)
    link false x y z us ws yx yz rest = (yz, rest)

    insert_by-InOrder : (x : A) (ys : List A) → InOrder ys → InOrder (insert_by x ys)
    insert_by-InOrder x [] _ = tt
    insert_by-InOrder x (y ∷ []) h = elim (Bool-cases (leq x y)) [
      | inl below ↦ rw (below, below) (refl, tt)
      | inr above ↦ rw above (total x y above, tt)
    ]
    insert_by-InOrder x (y ∷ z ∷ zs) (first, h) =
        let rest = insert_by-InOrder x (z ∷ zs) h in
        elim (Bool-cases (leq x y)) [
          | inl below ↦ rw (below, below) (refl, (first, h))
          | inr above ↦
              rw above (link (leq x z) x y z (z ∷ zs) (insert_by x zs) (total x y above) first rest)
        ]

    pub order_by-InOrder : (xs : List A) → InOrder (order_by xs)
    order_by-InOrder [] = tt
    order_by-InOrder (x ∷ xs) = insert_by-InOrder x (order_by xs) (order_by-InOrder xs)
