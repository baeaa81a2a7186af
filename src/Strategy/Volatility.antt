-- ===== src/Strategy/Volatility.antt =====
-- packages/strategy/volatility.py: `VolatilityPremiumStrategy`.
use alpha_desk.Base.{
  ◌≡◌, ◌↔◌, refl, ap, ◌∙◌, Bool, true, false, not, ◌&&◌, ◌||◌, Option, none, some, String, List, [],
  ◌++◌, ◌*◌, ℕ, arith, when, is_nil, keep, any, if◌then◌else◌, reason_laws,
}
use alpha_desk.Base.Integers.{pos, neg, ◌-ℤ◌, ◌*ℤ◌, ◌≤ℤ◌, ltb_ℤ, leb_ℤ, eqb_ℤ}
use alpha_desk.Base.Results.{Result, ok, require-pass, ◌>>◌, require}
use alpha_desk.Base.Sorting.{order_by, order_by-Perm, order_by-InOrder, InOrder}
use mathlib.Core.List.{Perm}
use alpha_desk.Domain.Options.{
  Decimal, zero_decimal, StructureType, bull_put_credit_spread, bear_call_credit_spread,
  OptionStructure, same_structure_type,
}

pub record VolatilityPremiumContext : Type 0 where
  pub iv_percentile : Decimal
  pub realized_volatility_percentile : Decimal
  pub event_risk : Bool
  pub tail_risk_score : Decimal
  pub trend_score : Decimal

pub record VolatilityAssessment : Type 0 where
  pub eligible : Bool
  pub premium_edge : Decimal
  pub reason_codes : List String
  pub preferred_structure : Option StructureType

abbrev pub by_trend : Decimal → StructureType
by_trend trend =
    if leb_ℤ zero_decimal trend then bull_put_credit_spread else bear_call_credit_spread

-- `hundredth` is the decimal 0.01.
module _ (hundredth : ℕ) where
  unfoldable pub reasons_of : VolatilityPremiumContext → List String
  reasons_of context =
      when
        (ltb_ℤ (context.iv_percentile -ℤ context.realized_volatility_percentile)
          (pos (20 * hundredth)))
        "insufficient_volatility_premium"
      ++ (when context.event_risk "event_risk"
          ++ when (ltb_ℤ (pos (70 * hundredth)) context.tail_risk_score) "tail_risk_elevated")

  unfoldable pub evaluate : VolatilityPremiumContext → VolatilityAssessment
  evaluate context =
      let reasons = reasons_of context in
      let eligible = is_nil reasons in
      record {
        eligible = eligible;
        premium_edge = context.iv_percentile -ℤ context.realized_volatility_percentile;
        reason_codes = reasons;
        preferred_structure = if eligible then some (by_trend context.trend_score) else none;
      }

  reasons_eq :
      (context : VolatilityPremiumContext)
      → is_nil (reasons_of context) ≡ (
          not (
            ltb_ℤ
              (context.iv_percentile -ℤ context.realized_volatility_percentile)
              (pos (20 * hundredth)))
          && (not context.event_risk && not (ltb_ℤ (pos (70 * hundredth)) context.tail_risk_score)))
  unfolding reasons_of
  reasons_eq context = simp reason_laws

  -- A premium is proposed just if the edge is at least 0.20, there is no event risk and the tail
  -- risk is at most 0.70. Then a put spread is preferred on a trend that is not negative and a call
  -- spread on a negative one, and else nothing is preferred.
  pub evaluate_eligible_iff :
      (context : VolatilityPremiumContext)
      → ((evaluate context).eligible ≡ true ↔ (
          (pos (20 * hundredth) ≤ℤ context.iv_percentile -ℤ context.realized_volatility_percentile)
          × (context.event_risk ≡ false)
          × (context.tail_risk_score ≤ℤ pos (70 * hundredth))))
        × ((evaluate context).preferred_structure
            ≡ (if (evaluate context).eligible then some (by_trend context.trend_score) else none))
  unfolding evaluate
  evaluate_eligible_iff context = (
    rw (reasons_eq context)
        (λ h. (ground arith, ground arith, ground arith), λ (edge, calm, tail). ground arith),
    refl,
  )

-- The exception of a division by a loss of zero.
pub data DivisionByZero : Type 0 where
  division_by_zero : DivisionByZero

abbrev pub or_zero : Option Decimal → Decimal
or_zero none = zero_decimal
or_zero (some d) = d

-- The order of the keys `(-(max_profit or 0) / max_loss, max_loss)`, multiplied out.
abbrev pub key_leq : OptionStructure → OptionStructure → Bool
key_leq a b =
    let x = neg (or_zero a.max_profit) *ℤ b.max_loss in
    let y = neg (or_zero b.max_profit) *ℤ a.max_loss in
    ltb_ℤ x y || (eqb_ℤ x y && leb_ℤ a.max_loss b.max_loss)

abbrev pub preferred : StructureType → List OptionStructure → List OptionStructure
preferred wanted = keep (λ item. same_structure_type item.structure_type wanted)

unfoldable pub sorted_by_key : List OptionStructure → Result DivisionByZero (List OptionStructure)
sorted_by_key items = do
  require (not (any (λ item. eqb_ℤ item.max_loss zero_decimal) items)) division_by_zero
  ok (order_by key_leq items)

abbrev ranked_for :
    Bool
    → Option StructureType
    → List OptionStructure
    → Result DivisionByZero (List OptionStructure)
ranked_for false _ candidates = ok []
ranked_for true none candidates = ok []
ranked_for true (some wanted) candidates = sorted_by_key (preferred wanted candidates)

unfoldable pub rank_candidates :
    VolatilityAssessment → List OptionStructure → Result DivisionByZero (List OptionStructure)
rank_candidates assessment candidates =
    ranked_for assessment.eligible assessment.preferred_structure candidates

key_leq_total : (a b : OptionStructure) → key_leq a b ≡ false → key_leq b a ≡ true
key_leq_total a b h =
    let x = neg (or_zero a.max_profit) *ℤ b.max_loss in
    let y = neg (or_zero b.max_profit) *ℤ a.max_loss in ground arith

-- Of an assessment that prefers a structure, and candidates of that type whose losses are not zero,
-- a ranking is always returned. It is a rearrangement of exactly those candidates, and each comes
-- before the next by reward for the loss, and by the smaller loss if that is the same.
pub rank_candidates_ordered :
    (assessment : VolatilityAssessment) (candidates : List OptionStructure) (wanted : StructureType)
    → assessment.eligible ≡ true
    → assessment.preferred_structure ≡ some wanted
    → any (λ item. eqb_ℤ item.max_loss zero_decimal) (preferred wanted candidates) ≡ false
    → (ranked : List OptionStructure) × (rank_candidates assessment candidates ≡ ok ranked)
      × Perm ranked (preferred wanted candidates)
      × InOrder key_leq ranked
unfolding rank_candidates sorted_by_key
rank_candidates_ordered assessment candidates wanted eligible prefers lossy =
    let items = preferred wanted candidates in
    (
      order_by key_leq items,
      ap (λ e. ranked_for e assessment.preferred_structure candidates) eligible
          ∙ ap (λ p. ranked_for true p candidates) prefers
          ∙ require-pass division_by_zero _ (ap not lossy),
      order_by-Perm key_leq items,
      order_by-InOrder key_leq key_leq_total items,
    )
