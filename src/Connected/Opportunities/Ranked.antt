-- ===== src/Connected/Opportunities/Ranked.antt =====
-- The spread that packages/connected/opportunities.py builds, and its ranking.
use alpha_desk.Base.{
  ℕ, ◌*◌, ◌≤◌, ◌≡◌, refl, ap, subst, true, false, none, String, List, [], ◌∷◌, is_some, arith,
}
use alpha_desk.Base.Integers.{ℤ, pos, ◌<ℤ◌, ◌*ℤ◌, eqb_ℤ, *ℤ_mono, *ℤ_parts}
use alpha_desk.Base.Results.{Result, ok, err, ◌>>◌, ok-injective, err≢ok}
use alpha_desk.Domain.Options.{
  zero_decimal, OptionType, call, put, OptionContract, OptionStructure, OptionLeg,
  same_structure_type,
}
use alpha_desk.Domain.Workflow.{Direction, bullish, bearish, TradeIdea, RankedCandidate}
use alpha_desk.Options.Engine.{
  build_structure, validate_common, validate_legs, terms_of, premium_of, Terms,
}
use alpha_desk.Options.Engine.Inversion.{vertical_terms-ok}
use alpha_desk.Options.Engine.Safety.{build_structure-IsBuilt}
use alpha_desk.Strategy.Ranking
use alpha_desk.Strategy.Ranking.{rank_candidates, is_wanted, divides_by_zero, wanted_for}
use alpha_desk.Connected.Records.{Service}
use alpha_desk.Connected.Selection.{vertical_type, wanted_type, vertical_legs}
use alpha_desk.Connected.Opportunities.{unit}
use alpha_desk.Connected.Opportunities.Safety.{ContractIsValid}

loss_not_zero :
    (x : ℤ) (n : ℕ) → zero_decimal <ℤ x → 1 ≤ n → eqb_ℤ (x *ℤ pos n) zero_decimal ≡ false
loss_not_zero x n positive some_shares =
    let least = *ℤ_mono (pos 1) x n (omega arith) in
    let one = *ℤ_parts (pos 1) (pos n) in ground arith

then_ok : {E A : Type 0} (m : Result E (Unit {0})) {a b : A} → (m >> ok a) ≡ ok b → a ≡ b
then_ok (ok _) h = ok-injective _ _ h
then_ok (err e) h = absurd (err≢ok h)

-- A vertical spread that was built has a bounded profit and a loss that is not zero.
vertical_computed :
    (type : OptionType) (symbol : String) (multiplier : ℕ) (legs : List OptionLeg) {t : Terms}
    → 1 ≤ multiplier
    → terms_of (vertical_type type) symbol multiplier 1 legs none ≡ ok t
    → (eqb_ℤ t.max_loss zero_decimal ≡ false) × (is_some t.max_profit ≡ true)
unfolding terms_of
vertical_computed call symbol multiplier legs positive h =
    let (_, _, _, _, _, _, spread, shape) = vertical_terms-ok true call legs none _ _ h in
    rw shape (loss_not_zero (premium_of legs) (multiplier * 1) spread.positive (omega arith), refl)
vertical_computed put symbol multiplier legs positive h =
    let (_, _, _, _, _, _, spread, shape) = vertical_terms-ok true put legs none _ _ h in
    rw shape (loss_not_zero (premium_of legs) (multiplier * 1) spread.positive (omega arith), refl)

vertical_wanted :
    (d : Direction) → same_structure_type (vertical_type (wanted_type d)) (wanted_for d) ≡ true
vertical_wanted bullish = refl
vertical_wanted bearish = refl

module _ (step : ℕ) {S : Type 0} (service : Service S) where
  -- A spread that was built is ranked, alone.
  pub rank_found :
      (idea : TradeIdea) (structure : OptionStructure)
      → is_wanted idea.direction structure ≡ true
      → eqb_ℤ structure.max_loss zero_decimal ≡ false
      → (leg : OptionLeg) (legs : List OptionLeg) → structure.legs ≡ leg ∷ legs
      → (candidate : RankedCandidate) × (rank_candidates step service.drawn.structure_id
            service.id_leq idea
            (structure ∷ [])
          ≡ ok (candidate ∷ []))
  unfolding rank_candidates
  rank_found idea structure wanted loss leg legs has_legs = (
    Ranking.candidate_of step service.drawn.structure_id service.id_leq idea 0 structure,
    rw (wanted, loss, has_legs) refl,
  )

  pub built-IsWanted :
      (idea : TradeIdea) (bought sold : OptionContract) (structure : OptionStructure)
      → ContractIsValid bought
      → build_structure
          (unit step)
          (vertical_type (wanted_type idea.direction))
          (vertical_legs bought sold)
          (pos 1)
          none
        ≡ ok structure
      → (is_wanted idea.direction structure ≡ true)
        × (eqb_ℤ structure.max_loss zero_decimal ≡ false)
        × (structure.legs ≡ vertical_legs bought sold)
        × (structure.quantity ≡ 1)
  unfolding validate_common
  built-IsWanted idea bought sold structure valid h =
      let built =
        build_structure-IsBuilt (unit step) (vertical_type (wanted_type idea.direction))
          (vertical_legs bought sold) (pos 1) none h in
      let shared = then_ok (validate_legs _ (vertical_legs bought sold)) built.common in
      let multiplier : bought.multiplier ≡ built.multiplier = ap (λ p. p.1) shared in
      let positive : 1 ≤ built.multiplier =
        subst (λ n. 1 ≤ n) multiplier valid.multiplier_positive in
      let (loss, profit) =
        vertical_computed (wanted_type idea.direction) built.symbol built.multiplier
          (vertical_legs bought sold) positive built.priced in
      rw (built.shape, vertical_wanted idea.direction, profit) (refl, loss, refl, refl)
