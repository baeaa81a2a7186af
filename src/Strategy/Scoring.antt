-- ===== src/Strategy/Scoring.antt =====
-- packages/strategy/catalyst.py: `score_signal`, and the bounds of the score.
use native.Mathlib.Nat.{mul-le-mul, le_refl}
use alpha_desk.Base.{ℕ, ◌+◌, ◌*◌, ◌≤◌, ◌<◌, if◌then◌else◌, arith}
use alpha_desk.Base.Integers.{
  ℤ, pos, negsuc, neg, abs, max, min, ◌+ℤ◌, ◌-ℤ◌, ◌*ℤ◌, ◌≤ℤ◌, leb_ℤ, int_laws, Within, Within-mul,
  Within-add, Within-shift, Within-le, Within-pos,
}
use alpha_desk.Domain.Options.{Decimal, zero_decimal}
use alpha_desk.Domain.Quotient.{◌/ℤ◌}
use alpha_desk.Domain.Rounding.{quantize, quantize-pos, half_even-le}
use alpha_desk.Domain.Workflow.{CatalystFeatures, FeaturesIsValid}

-- `_clamp`
unfoldable pub clamp : Decimal → Decimal → Decimal → Decimal
clamp value low high = min (max value low) high

-- `Decimal("1") if features.sentiment >= 0 else Decimal("-1")`
abbrev pub sentiment_sign : CatalystFeatures → ℤ
sentiment_sign features = if leb_ℤ zero_decimal features.sentiment then pos 1 else negsuc 0

-- `hundredth` is the decimal 0.01.
module _ (hundredth : ℕ) where
  abbrev one : Decimal
  one = pos (100 * hundredth)

  -- A directional confirmation between -1 and 1.
  abbrev pub directional : CatalystFeatures → Decimal → Decimal
  directional features value = clamp (value *ℤ sentiment_sign features) (neg one) one

  -- Twice the term of the volume, which is `(relative_volume - 1) / 2` between 0 and 1.
  abbrev pub doubled_volume : CatalystFeatures → Decimal
  doubled_volume features = clamp (features.relative_volume -ℤ one) (pos 0) (one +ℤ one)

  -- `normalized`, in parts of 4000, which hold the weights and the halves: 0.30, 0.15, 0.20 / 2,
  -- 0.10 / 2, 0.075 / 2, 0.075 / 2 and 0.10.
  unfoldable pub normalized_parts : CatalystFeatures → Decimal
  normalized_parts features =
      features.catalyst_confidence *ℤ pos 1200
      +ℤ abs features.sentiment *ℤ pos 600
      +ℤ (directional features features.price_momentum +ℤ one) *ℤ pos 400
      +ℤ doubled_volume features *ℤ pos 200
      +ℤ (directional features features.market_confirmation +ℤ one) *ℤ pos 150
      +ℤ (directional features features.sector_confirmation +ℤ one) *ℤ pos 150
      +ℤ features.liquidity_score *ℤ pos 400

  -- `(normalized * 100).quantize(0.01)`
  unfoldable pub score_signal : CatalystFeatures → Decimal
  score_signal features = quantize hundredth ((normalized_parts features *ℤ pos 100) /ℤ pos 4000)

  pub clamp_bounds :
      (value low high : Decimal)
      → low ≤ℤ high
      → (low ≤ℤ clamp value low high) × (clamp value low high ≤ℤ high)
  unfolding clamp max min
  clamp_bounds value low high h = ground arith

  abs-Within : (a : Decimal) (n : ℕ) → neg (pos n) ≤ℤ a → a ≤ℤ pos n → Within n (abs a)
  unfolding abs neg
  abs-Within a n low high = ground arith

  directional-Within :
      (features : CatalystFeatures) (value : Decimal)
      → Within (100 * hundredth + 100 * hundredth) (directional features value +ℤ one)
  directional-Within features value =
      let (low, high) =
        clamp_bounds (value *ℤ sentiment_sign features) (neg one) one (omega int_laws) in
      Within-shift (100 * hundredth) (directional features value) low high

  volume-Within :
      (features : CatalystFeatures)
      → Within (100 * hundredth + 100 * hundredth) (doubled_volume features)
  volume-Within features =
      let (low, high) =
        clamp_bounds (features.relative_volume -ℤ one) (pos 0) (one +ℤ one) (omega int_laws) in
      (low, omega int_laws)

  normalized-Within :
      (features : CatalystFeatures)
      → FeaturesIsValid (100 * hundredth) features
      → Within (4000 * (100 * hundredth)) (normalized_parts features)
  unfolding normalized_parts
  normalized-Within features valid =
      let u = 100 * hundredth in
      let confidence =
        Within-mul u 1200 features.catalyst_confidence
          (valid.confidence_low, valid.confidence_high) in
      let sentiment =
        Within-mul u 600 (abs features.sentiment)
          (abs-Within features.sentiment u valid.sentiment_low valid.sentiment_high) in
      let momentum =
        Within-mul (u + u) 400 _ (directional-Within features features.price_momentum) in
      let volume = Within-mul (u + u) 200 _ (volume-Within features) in
      let market =
        Within-mul (u + u) 150 _ (directional-Within features features.market_confirmation) in
      let sector =
        Within-mul (u + u) 150 _ (directional-Within features features.sector_confirmation) in
      let liquidity =
        Within-mul u 400 features.liquidity_score (valid.liquidity_low, valid.liquidity_high) in
      Within-le _ (4000 * u) _ (omega arith) (
        Within-add _ _ _ _
          (Within-add _ _ _ _
            (Within-add _ _ _ _
              (Within-add _ _ _ _
                (Within-add _ _ _ _ (Within-add _ _ _ _ confidence sentiment) momentum) volume)
              market)
            sector)
          liquidity)

  -- The score of valid features is at least 0 and at most 100, as the field of a signal asks for,
  -- also after the rounding.
  pub score_signal_bounds :
      (features : CatalystFeatures)
      → 0 < hundredth
      → FeaturesIsValid (100 * hundredth) features
      → Within (100 * (100 * hundredth)) (score_signal features)
  unfolding score_signal
  score_signal_bounds features positive valid =
      let parts =
        Within-mul (4000 * (100 * hundredth)) 100 (normalized_parts features)
          (normalized-Within features valid) in
      let (n, same, most) = Within-pos _ (normalized_parts features *ℤ pos 100) parts in
      let counted : n ≤ 10_000 * (4000 * hundredth) = omega arith in
      let rounded = half_even-le (4000 * hundredth) (omega arith) n 10_000 counted in
      let scaled = mul-le-mul rounded (le_refl hundredth) in
      rw (same, quantize-pos hundredth n 4000) (omega arith, omega (arith, scaled))
