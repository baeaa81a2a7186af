-- ===== src/Strategy/Catalyst.antt =====
-- packages/strategy/catalyst.py: `CatalystMomentumStrategy.evaluate_signal`.
use alpha_desk.Base.{
  ℕ, ◌*◌, ◌+◌, ◌≡◌, ◌↔◌, ◌⊎◌, inl, inr, refl, Bool, true, false, not, ◌&&◌, String, List, ◌++◌,
  arith, when, is_nil, if◌then◌else◌, reason_laws, Bool-cases,
}
use alpha_desk.Base.Integers.{
  ℤ, pos, negsuc, pos_part, neg_part, neg, ◌*ℤ◌, ◌≤ℤ◌, ◌<ℤ◌, ltb_ℤ, leb_ℤ, abs, *ℤ_parts,
}
use alpha_desk.Domain.Time.{Datetime, micros_per_second}
use alpha_desk.Domain.Options.{Decimal, zero_decimal}
use alpha_desk.Domain.Quotient.{◌/ℤ◌}
use alpha_desk.Domain.Workflow.{
  Uuid, Direction, bullish, bearish, CatalystFeatures, Signal, TradeIdea, NoTrade,
}

-- `TradeIdea | NoTrade`
pub data Proposal : Type 0 where
  trade : TradeIdea → Proposal
  no_trade : NoTrade → Proposal

abbrev pub direction_of : CatalystFeatures → Direction
direction_of features = if ltb_ℤ zero_decimal features.sentiment then bullish else bearish

abbrev pub direction_sign : Direction → ℤ
direction_sign bullish = pos 1
direction_sign bearish = neg (pos 1)

-- `hundredth` is the decimal 0.01; the time, and the identifier of the idea, are arguments.
module _ (hundredth : ℕ) (minimum_score maximum_gap : Decimal) where
  unfoldable pub reasons_of : Signal → List String
  reasons_of signal =
      let features = signal.features in
      when (ltb_ℤ signal.score minimum_score) "score_below_threshold"
      ++ (when (ltb_ℤ maximum_gap (abs features.gap_percent)) "move_excessively_extended"
          ++ (when
                (leb_ℤ (features.price_momentum *ℤ direction_sign (direction_of features))
                  zero_decimal)
                "price_action_not_confirming"
              ++ when (ltb_ℤ features.catalyst_confidence (pos (60 * hundredth)))
                  "weak_catalyst_confidence"))

  abbrev idea_of : Uuid → Signal → TradeIdea
  idea_of id signal = record {
    trade_idea_id = id;
    signal_id = signal.signal_id;
    symbol = signal.symbol;
    direction = direction_of signal.features;
    thesis = "High-confidence catalyst with confirming abnormal volume and price momentum.";
    holding_horizon = 10 * 86_400 * micros_per_second;
    entry_window = 4 * 3_600 * micros_per_second;
    exit_logic = "Exit at target, stop, catalyst invalidation, or two DTE.";
    confidence = signal.score /ℤ pos (100 * (100 * hundredth));
  }

  unfoldable pub evaluate_signal : Uuid → Datetime → Signal → Proposal
  evaluate_signal id now signal =
      let reasons = reasons_of signal in
      if not (is_nil reasons)
      then no_trade
          (record { signal_id = signal.signal_id; reason_codes = reasons; created_at = now })
      else trade (idea_of id signal)

  -- What the strategy asks of a signal: momentum goes the way of the sentiment.
  pub record Confirmed (signal : Signal) : Type 0 where
    pub strong : minimum_score ≤ℤ signal.score
    pub not_extended : abs signal.features.gap_percent ≤ℤ maximum_gap
    pub confirmed :
        ((zero_decimal <ℤ signal.features.sentiment)
          × (zero_decimal <ℤ signal.features.price_momentum))
        ⊎ ((signal.features.sentiment ≤ℤ zero_decimal)
            × (signal.features.price_momentum <ℤ zero_decimal))
    pub confident : pos (60 * hundredth) ≤ℤ signal.features.catalyst_confidence

  abbrev pub is_trade : Proposal → Bool
  is_trade (trade _) = true
  is_trade (no_trade _) = false

  reasons_eq :
      (signal : Signal)
      → is_nil (reasons_of signal) ≡ (
          not (ltb_ℤ signal.score minimum_score)
          && (not (ltb_ℤ maximum_gap (abs signal.features.gap_percent))
              && (not (
                    leb_ℤ
                      (signal.features.price_momentum
                        *ℤ direction_sign (direction_of signal.features))
                      zero_decimal)
                  && not (ltb_ℤ signal.features.catalyst_confidence (pos (60 * hundredth))))))
  unfolding reasons_of
  reasons_eq signal = simp reason_laws

  turned_parts :
      (m : ℤ) → pos_part (m *ℤ neg (pos 1)) + pos_part m ≡ neg_part (m *ℤ neg (pos 1)) + neg_part m
  unfolding neg
  turned_parts m = omega (arith, *ℤ_parts m (negsuc 0))

  momentum_iff :
      (features : CatalystFeatures)
      → (leb_ℤ (features.price_momentum *ℤ direction_sign (direction_of features)) zero_decimal
          ≡ false)
        ↔ (((zero_decimal <ℤ features.sentiment) × (zero_decimal <ℤ features.price_momentum))
            ⊎ ((features.sentiment ≤ℤ zero_decimal) × (features.price_momentum <ℤ zero_decimal)))
  momentum_iff features =
      let m = features.price_momentum in
      let kept = *ℤ_parts m (pos 1) in
      let turned = turned_parts m in
      elim (Bool-cases (ltb_ℤ zero_decimal features.sentiment)) [
        | inl up ↦ rw up (λ h. inl (ground arith, ground arith), λ h. ground arith)
        | inr down ↦ rw down (λ h. inr (ground arith, ground arith), λ h. ground arith)
      ]

  is_trade_eq :
      (id : Uuid) (now : Datetime) (signal : Signal)
      → is_trade (evaluate_signal id now signal) ≡ is_nil (reasons_of signal)
  unfolding evaluate_signal
  is_trade_eq id now signal = elim (Bool-cases (is_nil (reasons_of signal))) [
    | inl none_found ↦ rw none_found refl
    | inr found ↦ rw found refl
  ]

  -- A signal becomes a trade idea just if its score reaches the minimum, its gap is at most the
  -- maximum, its momentum goes strictly the way of its sentiment, down if the sentiment is neutral,
  -- and the confidence is at least 0.60.
  pub evaluate_signal_trades_iff :
      (id : Uuid) (now : Datetime) (signal : Signal)
      → (is_trade (evaluate_signal id now signal) ≡ true) ↔ Confirmed signal
  evaluate_signal_trades_iff id now signal =
      let (there, back) = momentum_iff signal.features in
      rw (is_trade_eq id now signal, reasons_eq signal)
        (
          λ h. record {
            strong = ground arith;
            not_extended = ground arith;
            confirmed = there (ground arith);
            confident = ground arith;
          },
          λ h.
              let strong = h.strong in
              let near = h.not_extended in
              let confident = h.confident in let confirmed = back h.confirmed in ground arith,
        )
