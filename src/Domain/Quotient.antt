-- ===== src/Domain/Quotient.antt =====
-- The quotient of two decimals, kept as a fraction with a positive divisor. A comparison of
-- quotients, or of a quotient and a decimal, is made by cross multiplication: Python's, which
-- rounds the quotient to 28 digits, agrees as long as the products have at most 27 digits.
use alpha_desk.Base.{ℕ, Bool}
use alpha_desk.Base.Integers.{ℤ, pos, ◌*ℤ◌, ◌≤ℤ◌, ◌<ℤ◌, ltb_ℤ, leb_ℤ}

pub record Quotient : Type 0 where
  pub dividend : ℤ
  pub divisor : ℤ

infixl 70 ◌/ℤ◌
abbrev pub ◌/ℤ◌ : ℤ → ℤ → Quotient
a /ℤ b = record { dividend = a; divisor = b }

-- `q * n` for an integer `n`.
abbrev pub scaled_by : Quotient → ℕ → Quotient
scaled_by q n = (q.dividend *ℤ pos n) /ℤ q.divisor

-- `q <= d` and `q < d` for a decimal `d` that counts in the given unit.
abbrev pub quotient_leb : ℕ → Quotient → ℤ → Bool
quotient_leb unit q d = leb_ℤ (q.dividend *ℤ pos unit) (d *ℤ q.divisor)

abbrev pub quotient_ltb : ℕ → Quotient → ℤ → Bool
quotient_ltb unit q d = ltb_ℤ (q.dividend *ℤ pos unit) (d *ℤ q.divisor)

-- The same as statements, free of division: 100 a / b is at most, or below, `d` percent.
abbrev pub PercentAtMost : ℕ → ℤ → ℤ → ℤ → Type 0
PercentAtMost unit d a b = a *ℤ pos 100 *ℤ pos unit ≤ℤ d *ℤ b

abbrev pub PercentBelow : ℕ → ℤ → ℤ → ℤ → Type 0
PercentBelow unit d a b = a *ℤ pos 100 *ℤ pos unit <ℤ d *ℤ b
