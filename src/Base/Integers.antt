-- ===== src/Base/Integers.antt =====
-- Signed integers over the native numbers, which stand for Python's `int` and, counted in a fixed
-- unit, for `Decimal`. Sums and orders go through the two parts of an integer.
use native.Mathlib.Nat.{mul-le-mul, le_refl}
use alpha_desk.Base.{
  ℕ, suc, ◌+◌, ◌-◌, ◌*◌, ◌≤◌, ◌≡◌, Bool, true, false, arith, ltb, leb, if◌then◌else◌, ap, subst,
  refl, ◌↔◌, ◌==◌,
}

-- `negsuc n` is -(n + 1).
pub data ℤ : Type 0 where
  pos : ℕ → ℤ
  negsuc : ℕ → ℤ

abbrev pub pos_part : ℤ → ℕ
pos_part (pos n) = n
pos_part (negsuc _) = 0

abbrev pub neg_part : ℤ → ℕ
neg_part (pos _) = 0
neg_part (negsuc n) = suc n

-- a - b, as an integer.
abbrev pub sub_ℕ : ℕ → ℕ → ℤ
sub_ℕ a b = if leb b a then pos (a - b) else negsuc (b - a - 1)

infixl 65 ◌+ℤ◌ ◌-ℤ◌
infixl 70 ◌*ℤ◌
infix 50 ◌≤ℤ◌ ◌<ℤ◌
unfoldable pub ◌+ℤ◌ : ℤ → ℤ → ℤ
a +ℤ b = sub_ℕ (pos_part a + pos_part b) (neg_part a + neg_part b)

unfoldable pub ◌-ℤ◌ : ℤ → ℤ → ℤ
a -ℤ b = sub_ℕ (pos_part a + neg_part b) (neg_part a + pos_part b)

unfoldable pub ◌*ℤ◌ : ℤ → ℤ → ℤ
a *ℤ b =
    sub_ℕ (pos_part a * pos_part b + neg_part a * neg_part b)
      (pos_part a * neg_part b + neg_part a * pos_part b)

abbrev pub ◌≤ℤ◌ : ℤ → ℤ → Type 0
a ≤ℤ b = pos_part a + neg_part b ≤ pos_part b + neg_part a

abbrev pub ◌<ℤ◌ : ℤ → ℤ → Type 0
a <ℤ b = suc (pos_part a + neg_part b) ≤ pos_part b + neg_part a

abbrev pub ltb_ℤ : ℤ → ℤ → Bool
ltb_ℤ a b = ltb (pos_part a + neg_part b) (pos_part b + neg_part a)

abbrev pub leb_ℤ : ℤ → ℤ → Bool
leb_ℤ a b = leb (pos_part a + neg_part b) (pos_part b + neg_part a)

abbrev pub eqb_ℤ : ℤ → ℤ → Bool
eqb_ℤ a b = (pos_part a + neg_part b) == (pos_part b + neg_part a)

-- Python's `-a`, `abs(a)`, `max(a, b)` and `min(a, b)`.
unfoldable pub neg : ℤ → ℤ
neg a = sub_ℕ (neg_part a) (pos_part a)

unfoldable pub abs : ℤ → ℤ
abs a = pos (pos_part a + neg_part a)

unfoldable pub max : ℤ → ℤ → ℤ
max a b = if ltb_ℤ a b then b else a

unfoldable pub min : ℤ → ℤ → ℤ
min a b = if ltb_ℤ b a then b else a

-- One lemma for each operation lets `omega` work with the operations shut.
pub +ℤ_parts :
    (a b : ℤ)
    → pos_part (a +ℤ b) + neg_part a + neg_part b ≡ neg_part (a +ℤ b) + pos_part a + pos_part b
unfolding ◌+ℤ◌
+ℤ_parts a b = ground arith

pub -ℤ_parts :
    (a b : ℤ)
    → pos_part (a -ℤ b) + neg_part a + pos_part b ≡ neg_part (a -ℤ b) + pos_part a + neg_part b
unfolding ◌-ℤ◌
-ℤ_parts a b = ground arith

sub_ℕ_parts : (m n : ℕ) → pos_part (sub_ℕ m n) + n ≡ neg_part (sub_ℕ m n) + m
sub_ℕ_parts m n = ground arith

pub *ℤ_parts :
    (a b : ℤ)
    → pos_part (a *ℤ b) + (pos_part a * neg_part b + neg_part a * pos_part b)
      ≡ neg_part (a *ℤ b) + (pos_part a * pos_part b + neg_part a * neg_part b)
unfolding ◌*ℤ◌
*ℤ_parts a b = sub_ℕ_parts _ _

pub neg_parts : (a : ℤ) → pos_part (neg a) + pos_part a ≡ neg_part (neg a) + neg_part a
unfolding neg
neg_parts a = ground arith

pub eq_of_parts : (a b : ℤ) → pos_part a + neg_part b ≡ pos_part b + neg_part a → a ≡ b
eq_of_parts a b h = ground arith

pub le→leb_ℤ : (a b : ℤ) → a ≤ℤ b → leb_ℤ a b ≡ true
le→leb_ℤ a b h = ground arith

pub lt→ltb_ℤ : (a b : ℤ) → a <ℤ b → ltb_ℤ a b ≡ true
lt→ltb_ℤ a b h = ground arith

pub ruleset int_laws = (arith, +ℤ_parts, -ℤ_parts, *ℤ_parts, neg_parts, eq_of_parts)

pub *ℤ_comm : (a b : ℤ) → a *ℤ b ≡ b *ℤ a
*ℤ_comm a b = omega int_laws

pub *ℤ_add : (a b c : ℤ) → (a +ℤ b) *ℤ c ≡ a *ℤ c +ℤ b *ℤ c
*ℤ_add a b c = omega (
  int_laws,
  ap (λ (t : ℕ). t * pos_part c) (+ℤ_parts a b),
  ap (λ (t : ℕ). t * neg_part c) (+ℤ_parts a b),
)

pub *ℤ_sub : (a b c : ℤ) → (a -ℤ b) *ℤ c ≡ a *ℤ c -ℤ b *ℤ c
*ℤ_sub a b c = omega (
  int_laws,
  ap (λ (t : ℕ). t * pos_part c) (-ℤ_parts a b),
  ap (λ (t : ℕ). t * neg_part c) (-ℤ_parts a b),
)

pub *ℤ_neg : (a c : ℤ) → neg a *ℤ c ≡ neg (a *ℤ c)
*ℤ_neg a c = omega (
  int_laws,
  ap (λ (t : ℕ). t * pos_part c) (neg_parts a),
  ap (λ (t : ℕ). t * neg_part c) (neg_parts a),
)

pub *ℤ_assoc : (a b c : ℤ) → a *ℤ b *ℤ c ≡ a *ℤ (b *ℤ c)
*ℤ_assoc a b c = omega (
  int_laws,
  ap (λ (t : ℕ). t * pos_part c) (*ℤ_parts a b),
  ap (λ (t : ℕ). t * neg_part c) (*ℤ_parts a b),
  ap (λ (t : ℕ). pos_part a * t) (*ℤ_parts b c),
  ap (λ (t : ℕ). neg_part a * t) (*ℤ_parts b c),
)

pub *ℤ_one : (a : ℤ) → a *ℤ pos 1 ≡ a
*ℤ_one a = omega int_laws

pub *ℤ_mono : (a b : ℤ) (n : ℕ) → a ≤ℤ b → a *ℤ pos n ≤ℤ b *ℤ pos n
*ℤ_mono a b n h = omega (int_laws, mul-le-mul h (le_refl n))

-- What `max` and `min` are, and a positive part `max(a - b, 0)` as a truncated difference.
pub max_sub_zero :
    (a b : ℤ) → max (a -ℤ b) (pos 0) ≡ pos ((pos_part a + neg_part b) - (pos_part b + neg_part a))
unfolding max ◌-ℤ◌
max_sub_zero a b = ground arith

pub max_zero : (a : ℤ) → max a (pos 0) ≡ pos (pos_part a)
unfolding max
max_zero a = ground arith

pub abs_sub :
    (a b : ℤ)
    → abs (a -ℤ b)
      ≡ pos (
          ((pos_part a + neg_part b) - (pos_part b + neg_part a))
          + ((pos_part b + neg_part a) - (pos_part a + neg_part b)))
unfolding abs ◌-ℤ◌
abs_sub a b = ground arith

pub pos-mul : (a b : ℕ) → pos a *ℤ pos b ≡ pos (a * b)
pos-mul a b = omega int_laws

-- Between zero and a bound.
abbrev pub Within : ℕ → ℤ → Type 0
Within n a = (pos 0 ≤ℤ a) × (a ≤ℤ pos n)

pub Within-mul : (n w : ℕ) (a : ℤ) → Within n a → Within (n * w) (a *ℤ pos w)
Within-mul n w a (low, high) =
    (omega (int_laws, mul-le-mul low (le_refl w)), omega (int_laws, mul-le-mul high (le_refl w)))

pub Within-add : (m n : ℕ) (a b : ℤ) → Within m a → Within n b → Within (m + n) (a +ℤ b)
Within-add m n a b (low, high) (low', high') = (omega int_laws, omega int_laws)

pub Within-shift : (n : ℕ) (a : ℤ) → neg (pos n) ≤ℤ a → a ≤ℤ pos n → Within (n + n) (a +ℤ pos n)
Within-shift n a low high = (omega int_laws, omega int_laws)

pub Within-le : (m n : ℕ) (a : ℤ) → m ≤ n → Within m a → Within n a
Within-le m n a h (low, high) = (low, omega arith)

pub Within-pos : (n : ℕ) (a : ℤ) → Within n a → (m : ℕ) × (a ≡ pos m) × (m ≤ n)
Within-pos n (pos m) (low, high) = (m, refl, omega arith)
Within-pos n (negsuc m) (low, high) = absurd (omega arith)

pub +ℤ_mono : (a b c d : ℤ) → a ≤ℤ b → c ≤ℤ d → a +ℤ c ≤ℤ b +ℤ d
+ℤ_mono a b c d h k = omega int_laws

pub le_of_pos : (a b : ℤ) (m n : ℕ) → a ≡ pos m → b ≡ pos n → a ≤ℤ b → m ≤ n
le_of_pos a b m n e f h =
    let h' : pos m ≤ℤ pos n = subst (λ y. pos m ≤ℤ y) f (subst (λ x. x ≤ℤ b) e h) in omega arith
