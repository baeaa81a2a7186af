-- ===== src/Strategy/Protection.antt =====
-- packages/strategy/protection.py: `PortfolioProtectionStrategy`.
use native.Mathlib.Nat.{mul-le-mul, le_refl}
use alpha_desk.Base.{
  ℕ, ◌*◌, ◌≤◌, ◌<◌, ◌≡◌, Bool, true, false, not, ◌||◌, ◌&&◌, String, List, [], ◌∷◌, ◌++◌, when,
  keep, arith,
}
use alpha_desk.Base.Integers.{
  pos, neg, max, min, ◌+ℤ◌, ◌*ℤ◌, ◌≤ℤ◌, leb_ℤ, ltb_ℤ, eqb_ℤ, *ℤ_mono, +ℤ_mono, Within, Within-mul,
  Within-add, Within-le, Within-pos, le_of_pos,
}
use alpha_desk.Base.Sorting.{order_by, order_by-Perm, order_by-InOrder, InOrder}
use mathlib.Core.List.{Perm}
use alpha_desk.Domain.Options.{
  Decimal, zero_decimal, StructureType, protective_put, protective_put_spread, OptionStructure,
  same_structure_type,
}
use alpha_desk.Domain.Quotient.{◌/ℤ◌}
use alpha_desk.Domain.Rounding.{quantize, quantize-pos, half_even-le, half_even_mono}

pub record ProtectionContext : Type 0 where
  pub portfolio_delta : Decimal
  pub drawdown_percent : Decimal
  pub volatility_percentile : Decimal
  pub trend_score : Decimal
  pub concentration_percent : Decimal
  pub correlation_score : Decimal

-- The bounds of the fields, where `unit` is the decimal 1.
pub record ContextIsValid (unit : ℕ) (c : ProtectionContext) : Type 0 where
  pub drawdown_low : pos 0 ≤ℤ c.drawdown_percent
  pub volatility_low : pos 0 ≤ℤ c.volatility_percentile
  pub volatility_high : c.volatility_percentile ≤ℤ pos unit
  pub trend_low : neg (pos unit) ≤ℤ c.trend_score
  pub trend_high : c.trend_score ≤ℤ pos unit
  pub concentration_low : pos 0 ≤ℤ c.concentration_percent
  pub correlation_low : pos 0 ≤ℤ c.correlation_score
  pub correlation_high : c.correlation_score ≤ℤ pos unit

pub record ProtectionAssessment : Type 0 where
  pub activated : Bool
  pub score : Decimal
  pub reasons : List String
  pub preferred_structures : List StructureType

-- `hundredth` is the decimal 0.01.
module _ (hundredth : ℕ) where
  abbrev pub deterioration : ProtectionContext → Decimal
  deterioration context = max (neg context.trend_score) zero_decimal

  -- Four times the score: `min(drawdown / 10, 1) * 30` is three times the lesser of the drawdown and
  -- 10, and `min(concentration / 20, 1) * 15` three quarters of the lesser of that and 20.
  unfoldable pub score_parts : ProtectionContext → Decimal
  score_parts context =
      min context.drawdown_percent (pos (1000 * hundredth)) *ℤ pos 12
      +ℤ context.volatility_percentile *ℤ pos 80
      +ℤ deterioration context *ℤ pos 80
      +ℤ min context.concentration_percent (pos (2000 * hundredth)) *ℤ pos 3
      +ℤ context.correlation_score *ℤ pos 60

  unfoldable pub protection_score : ProtectionContext → Decimal
  protection_score context = quantize hundredth (score_parts context /ℤ pos 4)

  abbrev pub reasons_of : ProtectionContext → List String
  reasons_of context =
      when (leb_ℤ (pos (500 * hundredth)) context.drawdown_percent) "portfolio_drawdown"
      ++ (when (leb_ℤ context.trend_score (neg (pos (40 * hundredth)))) "trend_deterioration"
          ++ when (leb_ℤ (pos (1500 * hundredth)) context.concentration_percent) "concentration")

  unfoldable pub evaluate : ProtectionContext → ProtectionAssessment
  evaluate context =
      let score = protection_score context in
      record {
        activated = leb_ℤ (pos (5500 * hundredth)) score;
        score = score;
        reasons = reasons_of context;
        preferred_structures = protective_put_spread ∷ protective_put ∷ [];
      }

  min-Within : (a : Decimal) (n : ℕ) → pos 0 ≤ℤ a → Within n (min a (pos n))
  unfolding min
  min-Within a n low = ground arith

  min_mono : (a b c : Decimal) → a ≤ℤ b → min a c ≤ℤ min b c
  unfolding min
  min_mono a b c h = ground arith

  deterioration-Within :
      (context : ProtectionContext)
      → neg (pos (100 * hundredth)) ≤ℤ context.trend_score
      → Within (100 * hundredth) (deterioration context)
  unfolding max neg
  deterioration-Within context low = ground arith

  parts-Within :
      (context : ProtectionContext)
      → ContextIsValid (100 * hundredth) context
      → Within (40_000 * hundredth) (score_parts context)
  unfolding score_parts
  parts-Within context valid =
      let u = 100 * hundredth in
      let drawdown =
        Within-mul (1000 * hundredth) 12 _
          (min-Within context.drawdown_percent (1000 * hundredth) valid.drawdown_low) in
      let volatility =
        Within-mul u 80 context.volatility_percentile
          (valid.volatility_low, valid.volatility_high) in
      let trend = Within-mul u 80 _ (deterioration-Within context valid.trend_low) in
      let concentration =
        Within-mul (2000 * hundredth) 3 _
          (min-Within context.concentration_percent (2000 * hundredth) valid.concentration_low) in
      let correlation =
        Within-mul u 60 context.correlation_score (valid.correlation_low, valid.correlation_high) in
      Within-le _ (40_000 * hundredth) _ (omega arith) (
        Within-add _ _ _ _
          (Within-add _ _ _ _ (Within-add _ _ _ _ (Within-add _ _ _ _ drawdown volatility) trend)
            concentration)
          correlation)

  score-Within :
      (context : ProtectionContext)
      → 0 < hundredth
      → ContextIsValid (100 * hundredth) context
      → Within (10_000 * hundredth) (protection_score context)
  unfolding protection_score
  score-Within context positive valid =
      let (n, same, most) = Within-pos _ (score_parts context) (parts-Within context valid) in
      let counted : n ≤ 10_000 * (4 * hundredth) = omega arith in
      let rounded = half_even-le (4 * hundredth) (omega arith) n 10_000 counted in
      let scaled = mul-le-mul rounded (le_refl hundredth) in
      rw (same, quantize-pos hundredth n 4) (omega arith, omega (arith, scaled))

  -- A context that is at least as bad: deeper drawdown, more volatility, a worse trend, more
  -- concentration and more correlation.
  pub record NoBetter (worse context : ProtectionContext) : Type 0 where
    pub drawdown : context.drawdown_percent ≤ℤ worse.drawdown_percent
    pub volatility : context.volatility_percentile ≤ℤ worse.volatility_percentile
    pub trend : worse.trend_score ≤ℤ context.trend_score
    pub concentration : context.concentration_percent ≤ℤ worse.concentration_percent
    pub correlation : context.correlation_score ≤ℤ worse.correlation_score

  deterioration_mono :
      (worse context : ProtectionContext)
      → worse.trend_score ≤ℤ context.trend_score
      → deterioration context ≤ℤ deterioration worse
  unfolding max neg
  deterioration_mono worse context h = ground arith

  parts_mono :
      (worse context : ProtectionContext)
      → NoBetter worse context
      → score_parts context ≤ℤ score_parts worse
  unfolding score_parts
  parts_mono worse context h =
      let drawdown = *ℤ_mono _ _ 12 (
        min_mono context.drawdown_percent worse.drawdown_percent (pos (1000 * hundredth))
          h.drawdown) in
      let volatility = *ℤ_mono _ _ 80 h.volatility in
      let trend = *ℤ_mono _ _ 80 (deterioration_mono worse context h.trend) in
      let concentration = *ℤ_mono _ _ 3 (
        min_mono context.concentration_percent worse.concentration_percent (pos (2000 * hundredth))
          h.concentration) in
      let correlation = *ℤ_mono _ _ 60 h.correlation in
      +ℤ_mono _ _ _ _
        (+ℤ_mono _ _ _ _ (+ℤ_mono _ _ _ _ (+ℤ_mono _ _ _ _ drawdown volatility) trend)
          concentration)
        correlation

  score_mono :
      (worse context : ProtectionContext)
      → 0 < hundredth
      → ContextIsValid (100 * hundredth) context
      → ContextIsValid (100 * hundredth) worse
      → NoBetter worse context
      → protection_score context ≤ℤ protection_score worse
  unfolding protection_score
  score_mono worse context positive valid valid' h =
      let (n, same, _) = Within-pos _ (score_parts context) (parts-Within context valid) in
      let (m, same', _) = Within-pos _ (score_parts worse) (parts-Within worse valid') in
      let parts = parts_mono worse context h in
      let below = le_of_pos (score_parts context) (score_parts worse) n m same same' parts in
      let rounded = half_even_mono (4 * hundredth) (omega arith) n m below in
      let scaled = mul-le-mul rounded (le_refl hundredth) in
      rw (same, same', quantize-pos hundredth n 4, quantize-pos hundredth m 4)
        (omega (arith, scaled))

  stays : (threshold a b : Decimal) → a ≤ℤ b → (not (leb_ℤ threshold a) || leb_ℤ threshold b) ≡ true
  stays threshold a b h = ground arith

  -- Of valid contexts: the score is between 0 and 100, and protection that is activated stays
  -- activated, with at least that score, in every context that is at least as bad.
  pub evaluate_protects :
      (worse context : ProtectionContext)
      → 0 < hundredth
      → ContextIsValid (100 * hundredth) context
      → ContextIsValid (100 * hundredth) worse
      → NoBetter worse context
      → Within (10_000 * hundredth) (evaluate context).score
        × ((evaluate context).score ≤ℤ (evaluate worse).score)
        × ((not (evaluate context).activated || (evaluate worse).activated) ≡ true)
  unfolding evaluate
  evaluate_protects worse context positive valid valid' h =
      let within = score-Within context positive valid in
      let order = score_mono worse context positive valid valid' h in
      (within, order, stays (pos (5500 * hundredth)) _ _ order)

abbrev pub is_supported : OptionStructure → Bool
is_supported item =
    same_structure_type item.structure_type protective_put
    || same_structure_type item.structure_type protective_put_spread

-- The order of the keys `(max_loss, net_premium_per_share)`.
abbrev pub key_leq : OptionStructure → OptionStructure → Bool
key_leq a b =
    ltb_ℤ a.max_loss b.max_loss
    || (eqb_ℤ a.max_loss b.max_loss && leb_ℤ a.net_premium_per_share b.net_premium_per_share)

unfoldable pub rank_candidates : List OptionStructure → List OptionStructure
rank_candidates candidates = order_by key_leq (keep is_supported candidates)

key_leq_total : (a b : OptionStructure) → key_leq a b ≡ false → key_leq b a ≡ true
key_leq_total a b h = ground arith

-- The ranking holds exactly the protective structures among the candidates, the smaller loss first,
-- and of one loss the cheaper.
pub rank_candidates_protective :
    (candidates : List OptionStructure)
    → Perm (rank_candidates candidates) (keep is_supported candidates)
      × InOrder key_leq (rank_candidates candidates)
unfolding rank_candidates
rank_candidates_protective candidates = (
  order_by-Perm key_leq (keep is_supported candidates),
  order_by-InOrder key_leq key_leq_total (keep is_supported candidates),
)
