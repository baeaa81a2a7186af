-- ===== src/Domain/Rounding.antt =====
-- `Decimal.quantize` in its default mode: to the nearest multiple, and to the even one of two.
use native.Mathlib.Nat.{
  mul-le-mul, le_refl, le_trans, mul_comm, div-add-mod', div-le_of_le-mul, div-mul-le_self,
  le-div_iff_mul-le,
}
use alpha_desk.Base.{
  ℕ, suc, ◌*◌, ◌/◌, ◌%◌, ◌≤◌, ◌<◌, ◌≡◌, ap, dec_lt, Bool, true, false, ltb, ◌==◌, if◌then◌else◌,
  arith,
}
use alpha_desk.Base.Integers.{ℤ, pos, negsuc, neg, pos_part, ◌*ℤ◌, pos-mul}
use alpha_desk.Domain.Options.{Decimal}
use alpha_desk.Domain.Quotient.{Quotient}

-- n / d, rounded, for a positive d: by twice the remainder, and by parity at a half.
abbrev pub rounded_up : ℕ → ℕ → Bool
rounded_up n d =
    if ltb d (2 * (n % d)) then true else if 2 * (n % d) == d then (n / d) % 2 == 1 else false

unfoldable pub half_even : ℕ → ℕ → ℕ
half_even n d = if rounded_up n d then suc (n / d) else n / d

pub round_ℤ : ℤ → ℕ → ℤ
round_ℤ (pos n) d = pos (half_even n d)
round_ℤ (negsuc n) d = neg (pos (half_even (suc n) d))

-- `q.quantize(step)`, of a quotient with a positive divisor and a positive step.
unfoldable pub quantize : ℕ → Quotient → Decimal
unfolding round_ℤ
quantize step q = round_ℤ q.dividend (pos_part q.divisor * step) *ℤ pos step

module _ (d : ℕ) (positive : 0 < d) where
  half_even-bounds : (n : ℕ) → (n / d ≤ half_even n d) × (half_even n d ≤ suc (n / d))
  unfolding half_even
  half_even-bounds n = ground arith

  half_even_exact : (n : ℕ) → n % d ≡ 0 → half_even n d ≡ n / d
  unfolding half_even
  half_even_exact n h = ground arith

  pub half_even-le : (n m : ℕ) → n ≤ m * d → half_even n d ≤ m
  half_even-le n m h =
      let (_, above) = half_even-bounds n in
      let whole = div-add-mod' n d in
      elim (dec_lt (n / d) m) [
        | yes below ↦ omega arith
        | no least ↦
            let more : m * d ≤ n / d * d = mul-le-mul (omega arith) (le_refl d) in
            let exact : n % d ≡ 0 = omega arith in
            let most : n / d ≤ m = div-le_of_le-mul d (rw (mul_comm d m) h) in
            rw (half_even_exact n exact) most
      ]

  same_quotient : (n m : ℕ) → n / d ≡ m / d → n % d ≤ m % d → half_even n d ≤ half_even m d
  unfolding half_even
  same_quotient n m e h = rw e (ground arith)

  pub half_even_mono : (n m : ℕ) → n ≤ m → half_even n d ≤ half_even m d
  half_even_mono n m h =
      let (_, above) = half_even-bounds n in
      let (below, _) = half_even-bounds m in
      let quotients : n / d ≤ m / d =
        (le-div_iff_mul-le positive).1 (le_trans (div-mul-le_self n d) h) in
      elim (dec_lt (n / d) (m / d)) [
        | yes less ↦ omega arith
        | no least ↦
            let e : n / d ≡ m / d = omega arith in
            let n' = div-add-mod' n d in
            let m' = div-add-mod' m d in
            let e' : n / d * d ≡ m / d * d = ap (λ (t : ℕ). t * d) e in
            same_quotient n m e (omega arith)
      ]

-- A quotient that is not negative.
pub quantize-pos :
    (step n d : ℕ)
    → quantize step (record { dividend = pos n; divisor = pos d })
      ≡ pos (half_even n (d * step) * step)
unfolding quantize round_ℤ
quantize-pos step n d = pos-mul (half_even n (d * step)) step
