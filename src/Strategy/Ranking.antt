-- ===== src/Strategy/Ranking.antt =====
-- packages/strategy/catalyst.py: `CatalystMomentumStrategy.rank_candidates`.
use alpha_desk.Base.{
  ℕ, suc, ◌*◌, ◌≡◌, refl, ap, Bool, true, false, not, ◌&&◌, ◌||◌, Option, none, some, String, List,
  [], ◌∷◌, map, any, keep, is_nil, is_some, length, if◌then◌else◌, arith, subst,
}
use alpha_desk.Base.Integers.{pos, ◌-ℤ◌, ◌+ℤ◌, ◌*ℤ◌, ltb_ℤ, eqb_ℤ}
use alpha_desk.Base.Results.{Result, ok, ◌>>◌, require, require-pass}
use alpha_desk.Base.Sorting.{order_by, order_by-Perm, order_by-InOrder, InOrder}
use mathlib.Core.List.{Perm}
use mathlib.Core.List.Perm
use alpha_desk.Domain.Options.{
  Decimal, zero_decimal, StructureType, bull_call_debit_spread, bear_put_debit_spread, OptionLeg,
  OptionStructure, same_structure_type, spread_ratio,
}
use alpha_desk.Domain.Quotient.{Quotient, ◌/ℤ◌}
use alpha_desk.Domain.Rounding.{quantize}
use alpha_desk.Domain.Workflow.{Uuid, Direction, bullish, bearish, TradeIdea, RankedCandidate}
use alpha_desk.Strategy.Volatility.{DivisionByZero, division_by_zero, or_zero}

abbrev pub wanted_for : Direction → StructureType
wanted_for bullish = bull_call_debit_spread
wanted_for bearish = bear_put_debit_spread

abbrev pub is_wanted : Direction → OptionStructure → Bool
is_wanted direction structure =
    same_structure_type structure.structure_type (wanted_for direction)
    && is_some structure.max_profit

abbrev structure_of : RankedCandidate → OptionStructure
structure_of candidate = candidate.structure

abbrev one : Quotient
one = pos 1 /ℤ pos 1

-- `spread_ratio or Decimal("1")`: a ratio of zero is false, and becomes 1 too.
abbrev pub ratio_or_one : Option Quotient → Quotient
ratio_or_one none = one
ratio_or_one (some ratio) = if eqb_ℤ ratio.dividend zero_decimal then one else ratio

abbrev pub add : Quotient → Quotient → Quotient
add a b = (a.dividend *ℤ b.divisor +ℤ b.dividend *ℤ a.divisor) /ℤ (a.divisor *ℤ b.divisor)

abbrev pub sum_of_ratios : List OptionLeg → Quotient
sum_of_ratios [] = pos 0 /ℤ pos 1
sum_of_ratios (leg ∷ legs) =
    add (ratio_or_one (spread_ratio leg.contract.quote)) (sum_of_ratios legs)

unfoldable pub spread_cost : OptionStructure → Quotient
spread_cost structure =
    let total = sum_of_ratios structure.legs in
    total.dividend /ℤ (total.divisor *ℤ pos (length structure.legs))

abbrev pub reward_risk : OptionStructure → Quotient
reward_risk structure = or_zero structure.max_profit /ℤ structure.max_loss

-- The divisions of the loop, by the loss and by the number of legs.
abbrev pub divides_by_zero : OptionStructure → Bool
divides_by_zero structure = eqb_ℤ structure.max_loss zero_decimal || is_nil structure.legs

-- `step` is the decimal 0.0001, and `fresh` gives the candidates' identifiers, which the database
-- orders by `id_leq`.
module _ (step : ℕ) (fresh : ℕ → Uuid) (id_leq : String → String → Bool) where
  -- `(reward_risk * 50 - spread_cost * 100).quantize(0.0001)`
  unfoldable pub rank_score : Quotient → Quotient → Decimal
  rank_score reward cost = quantize step (
      (((reward.dividend *ℤ pos 50) *ℤ cost.divisor)
        -ℤ ((cost.dividend *ℤ pos 100) *ℤ reward.divisor))
      *ℤ pos (10_000 * step)
      /ℤ (reward.divisor *ℤ cost.divisor))

  abbrev pub candidate_of : TradeIdea → ℕ → OptionStructure → RankedCandidate
  candidate_of idea n structure =
      let reward = reward_risk structure in
      let cost = spread_cost structure in
      record {
        structure_id = fresh n;
        trade_idea_id = idea.trade_idea_id;
        structure = structure;
        rank_score = rank_score reward cost;
        rank_components = ("reward_risk", reward) ∷ ("spread_cost", cost) ∷ [];
      }

  abbrev pub candidates_of : TradeIdea → ℕ → List OptionStructure → List RankedCandidate
  candidates_of idea n [] = []
  candidates_of idea n (structure ∷ structures) =
      candidate_of idea n structure ∷ candidates_of idea (suc n) structures

  -- The order of the keys `(-rank_score, str(structure_id))`.
  abbrev pub candidate_leq : RankedCandidate → RankedCandidate → Bool
  candidate_leq a b =
      ltb_ℤ b.rank_score a.rank_score
      || (eqb_ℤ b.rank_score a.rank_score && id_leq a.structure_id b.structure_id)

  unfoldable pub rank_candidates :
      TradeIdea → List OptionStructure → Result DivisionByZero (List RankedCandidate)
  rank_candidates idea structures =
      let wanted = keep (is_wanted idea.direction) structures in
      do
        require (not (any divides_by_zero wanted)) division_by_zero
        ok (order_by candidate_leq (candidates_of idea 0 wanted))

  structures-candidates :
      (idea : TradeIdea) (n : ℕ) (structures : List OptionStructure)
      → map structure_of (candidates_of idea n structures) ≡ structures
  structures-candidates idea n [] = refl
  structures-candidates idea n (s ∷ structures) =
      ap (λ rest. s ∷ rest) (structures-candidates idea (suc n) structures)

  module _ (id_total : (a b : String) → id_leq a b ≡ false → id_leq b a ≡ true) where
    candidate_leq_total :
        (a b : RankedCandidate) → candidate_leq a b ≡ false → candidate_leq b a ≡ true
    candidate_leq_total a b h =
        let ids = id_total a.structure_id b.structure_id in ground (arith, ids)

    -- Where no structure of the idea's kind with a bounded profit has a loss of zero or no legs, a
    -- ranking is returned. It is of exactly these structures, and the higher score comes first.
    rank_candidates_ranks :
        (idea : TradeIdea) (structures : List OptionStructure)
        → any divides_by_zero (keep (is_wanted idea.direction) structures) ≡ false
        → (ranked : List RankedCandidate) × (rank_candidates idea structures ≡ ok ranked)
          × Perm (map structure_of ranked) (keep (is_wanted idea.direction) structures)
          × InOrder candidate_leq ranked
    unfolding rank_candidates
    rank_candidates_ranks idea structures divides =
        let wanted = keep (is_wanted idea.direction) structures in
        let made = candidates_of idea 0 wanted in
        (
          order_by candidate_leq made,
          require-pass division_by_zero _ (ap not divides),
          subst (Perm (map structure_of (order_by candidate_leq made)))
              (structures-candidates idea 0 wanted)
              (Perm.map structure_of (order_by-Perm candidate_leq made)),
          order_by-InOrder candidate_leq candidate_leq_total made,
        )
