-- ===== src/Base/Lists.antt =====
-- Lists measured by native numbers, Boolean folds over them, and the predicate `All`.
use Prim.Native.Nat.{ℕ, suc, ◌+◌}
use mathlib.Core.Path.{◌≡◌, refl}
use mathlib.Core.Bool.{Bool, true, false, not, ◌&&◌, ◌||◌}
use mathlib.Core.List.{List, [], ◌∷◌, ◌++◌}
use native.Mathlib.Omega.{arith}
use mathlib.Core.Logic.{◌↔◌}
use mathlib.Core.Option.{Option, none, some}
use mathlib.Core.Logic.{inl, inr}
use alpha_desk.Base.Booleans.{if◌then◌else◌, Bool-cases}

module _ {ℓ} {A : Type ℓ} where
  abbrev pub length : List A → ℕ
  length [] = 0
  length (_ ∷ xs) = suc (length xs)

  pub length-append : (xs ys : List A) → length (xs ++ ys) ≡ length xs + length ys
  length-append [] ys = omega arith
  length-append (x ∷ xs) ys = omega (arith, length-append xs ys)

  -- Python's `all(p(x) for x in xs)`.
  abbrev pub all : (A → Bool) → List A → Bool
  all p [] = true
  all p (x ∷ xs) = p x && all p xs

  -- Python's `any(p(x) for x in xs)`.
  abbrev pub any : (A → Bool) → List A → Bool
  any p [] = false
  any p (x ∷ xs) = p x || any p xs

  -- A comprehension with a test: `[x for x in xs if p(x)]`.
  abbrev pub keep : (A → Bool) → List A → List A
  keep p [] = []
  keep p (x ∷ xs) = if p x then x ∷ keep p xs else keep p xs

  -- A list that is built by appending under a test: `x` if the test passes.
  abbrev pub when : Bool → A → List A
  when true x = x ∷ []
  when false _ = []

  abbrev pub All {κ} : (A → Type κ) → List A → Type κ
  All P [] = Unit
  All P (x ∷ xs) = P x × All P xs

  abbrev pub is_nil : List A → Bool
  is_nil [] = true
  is_nil (_ ∷ _) = false

module _ {ℓ} {A : Type ℓ} where
  pub is_nil-append : (xs ys : List A) → is_nil (xs ++ ys) ≡ (is_nil xs && is_nil ys)
  is_nil-append [] ys = refl
  is_nil-append (x ∷ xs) ys = refl

  pub is_nil-when : (b : Bool) (x : A) → is_nil (when b x) ≡ not b
  is_nil-when true x = refl
  is_nil-when false x = refl

-- A list of reasons is empty just if no test found one.
pub ruleset reason_laws = (is_nil-append, is_nil-when)

-- A conjunction of tests, one by one.
abbrev pub all_true : List Bool → Bool
all_true [] = true
all_true (b ∷ bs) = b && all_true bs

pub all_true_iff : (bs : List Bool) → (all_true bs ≡ true) ↔ All (λ b. b ≡ true) bs
all_true_iff [] = (λ h. tt, λ h. refl)
all_true_iff (b ∷ bs) =
    let (l, r) = all_true_iff bs in
    (λ h. (ground arith, l (ground arith)), λ (h, hs). let rest = r hs in ground arith)

pub not-true : (b : Bool) → not b ≡ true → b ≡ false
not-true b h = ground arith

module _ {ℓ κ} {A : Type ℓ} (P : A → Type κ) where
  pub All-append : (xs ys : List A) → All P xs → All P ys → All P (xs ++ ys)
  All-append [] ys _ h = h
  All-append (x ∷ xs) ys (p, ps) h = (p, All-append xs ys ps h)

  pub All-map : (Q : A → Type κ) → ((x : A) → P x → Q x) → (xs : List A) → All P xs → All Q xs
  All-map Q imp [] _ = tt
  All-map Q imp (x ∷ xs) (p, ps) = (imp x p, All-map Q imp xs ps)

-- The first row that passes, `session.scalar(select(…).where(…))`, or none.
module _ {ℓ} {A : Type ℓ} (p : A → Bool) where
  abbrev pub find_first : List A → Option A
  find_first [] = none
  find_first (x ∷ xs) = if p x then some x else find_first xs

  pub find_first-last :
      (xs : List A) (x : A) → find_first xs ≡ none → p x ≡ true → find_first (xs ++ x ∷ []) ≡ some x
  find_first-last [] x h this = rw this refl
  find_first-last (y ∷ xs) x h this = elim (Bool-cases (p y)) [
    | inl here ↦ ground arith
    | inr there ↦ rw there (find_first-last xs x (ground arith) this)
  ]

  pub find_first-absent : (xs : List A) → All (λ x. p x ≡ false) xs → find_first xs ≡ none
  find_first-absent [] h = refl
  find_first-absent (x ∷ xs) (other, others) = rw other (find_first-absent xs others)

  pub find_first-passes : (xs : List A) (x : A) → find_first xs ≡ some x → p x ≡ true
  find_first-passes [] x h = cc
  find_first-passes (y ∷ xs) x h =
      let rest = find_first-passes xs x in
      elim (Bool-cases (p y)) [ inl this ↦ ground arith | inr other ↦ rest (ground arith) ]
