-- ===== src/Options/Liquidity/Eligible.antt =====
-- Which contracts `evaluate_contract` (packages/options/liquidity.py) lets through.
use alpha_desk.Base.{
  ℕ, ◌+◌, ◌*◌, ◌≤◌, ◌≡◌, ◌↔◌, refl, sym, ◌∙◌, Bool, true, false, not, ◌&&◌, ◌||◌, Option, none,
  some, List, [], ◌∷◌, arith, is_nil, is_some, reason_laws, All, all_true, all_true_iff, not-true,
}
use alpha_desk.Base.Integers.{ℤ, pos, ◌-ℤ◌, ◌+ℤ◌, ◌*ℤ◌, ◌≤ℤ◌, ◌<ℤ◌, ltb_ℤ, leb_ℤ, abs, +ℤ_parts}
use alpha_desk.Base.Results.{Result, ok, err, require, ◌>>◌}
use alpha_desk.Domain.Time.{
  Datetime, date_of, days_between, is_before, is_older_than, micros_per_second,
}
use alpha_desk.Domain.Options.{
  Decimal, zero_decimal, OptionQuote, OptionContract, LiquidityPolicy, EligibilityResult,
  spread_ratio,
}
use alpha_desk.Options.Liquidity.{
  NaiveTime, naive_as_of, is_supported, is_too_wide, interest_reasons, strike_reasons, reasons_of,
  evaluate_contract,
}

-- The open interest is known and large enough, where the policy asks for it.
abbrev pub Interested : Option ℕ → Option ℕ → Type 0
Interested none _ = Unit
Interested (some least) none = ⊥
Interested (some least) (some n) = least ≤ n

-- What makes a contract eligible: quotients are multiplied out.
pub record IsLiquid (unit : ℕ) (contract : OptionContract) (underlying_price : Decimal)
    (policy : LiquidityPolicy) (as_of : Datetime) : Type 0 where
  pub aware : as_of.has_tzinfo ≡ true
  pub supported : is_supported contract.underlying_symbol policy.supported_underlyings ≡ true
  pub tradable : contract.tradable ≡ true
  pub soon_enough : days_between contract.expiration (date_of as_of) ≤ℤ pos policy.max_dte
  pub late_enough : pos policy.min_dte ≤ℤ days_between contract.expiration (date_of as_of)
  pub bid_positive : zero_decimal <ℤ contract.quote.bid
  pub ask_positive : zero_decimal <ℤ contract.quote.ask
  pub narrow :
      (contract.quote.ask -ℤ contract.quote.bid) *ℤ pos 2 *ℤ pos unit
      ≤ℤ policy.max_spread_ratio *ℤ (contract.quote.bid +ℤ contract.quote.ask)
  pub bid_deep : policy.min_quote_size ≤ℤ contract.quote.bid_size
  pub ask_deep : policy.min_quote_size ≤ℤ contract.quote.ask_size
  pub interest : Interested policy.min_open_interest contract.quote.open_interest
  pub not_from_future : contract.quote.quoted_at.micros ≤ as_of.micros
  pub recent :
      as_of.micros
      ≤ contract.quote.quoted_at.micros + policy.max_quote_age_seconds * micros_per_second
  pub price_positive : zero_decimal <ℤ underlying_price
  pub near :
      abs (contract.strike -ℤ underlying_price) *ℤ pos unit
      ≤ℤ policy.max_strike_distance_ratio *ℤ underlying_price
  pub greeks : (policy.require_greeks && not (is_some contract.quote.greeks)) ≡ false

abbrev pub is_eligible : Result NaiveTime EligibilityResult → Bool
is_eligible (ok r) = r.eligible
is_eligible (err _) = false

interest_iff :
    (least known : Option ℕ)
    → (is_nil (interest_reasons least known) ≡ true) ↔ Interested least known
unfolding interest_reasons
interest_iff none known = (λ h. tt, λ h. refl)
interest_iff (some least) none = (λ h. cc, λ h. absurd h)
interest_iff (some least) (some n) = (λ h. ground arith, λ h. ground arith)

strike_iff :
    (unit : ℕ) (bound strike price : ℤ)
    → (is_nil (strike_reasons unit bound strike price) ≡ true)
      ↔ ((zero_decimal <ℤ price) × (abs (strike -ℤ price) *ℤ pos unit ≤ℤ bound *ℤ price))
unfolding strike_reasons
strike_iff unit bound strike price =
    (λ h. (ground arith, ground arith), λ (positive, near). ground arith)

spread_iff :
    (unit : ℕ) (bound : ℤ) (quote : OptionQuote)
    → zero_decimal <ℤ quote.bid
    → zero_decimal <ℤ quote.ask
    → (is_too_wide unit bound (spread_ratio quote) ≡ false)
      ↔ ((quote.ask -ℤ quote.bid) *ℤ pos 2 *ℤ pos unit ≤ℤ bound *ℤ (quote.bid +ℤ quote.ask))
unfolding spread_ratio
spread_iff unit bound quote bid ask =
    let positive : leb_ℤ (quote.bid +ℤ quote.ask) zero_decimal ≡ false =
      ground (arith, +ℤ_parts quote.bid quote.ask) in
    rw positive (λ h. ground arith, λ h. ground arith)

require_eligible :
    (aware : Bool) (r : EligibilityResult)
    → is_eligible (require aware naive_as_of >> ok r) ≡ (aware && r.eligible)
require_eligible true r = refl
require_eligible false r = refl

and_parts : (a b : Bool) → (a && b) ≡ true → (a ≡ true) × (b ≡ true)
and_parts a b h = (ground arith, ground arith)

module _ (unit : ℕ) (contract : OptionContract) (price : Decimal) (policy : LiquidityPolicy)
    (as_of : Datetime) where
  -- There is no reason just if every test passes.
  abbrev tests : List Bool
  tests =
      let quote = contract.quote in
      let dte = days_between contract.expiration (date_of as_of) in
      is_supported contract.underlying_symbol policy.supported_underlyings
      ∷ contract.tradable
      ∷ (leb_ℤ (pos policy.min_dte) dte && leb_ℤ dte (pos policy.max_dte))
      ∷ not (leb_ℤ quote.bid zero_decimal || leb_ℤ quote.ask zero_decimal)
      ∷ not (is_too_wide unit policy.max_spread_ratio (spread_ratio quote))
      ∷ not
          (ltb_ℤ quote.bid_size policy.min_quote_size || ltb_ℤ quote.ask_size policy.min_quote_size)
      ∷ is_nil (interest_reasons policy.min_open_interest quote.open_interest)
      ∷ not (
          is_before as_of quote.quoted_at
          || is_older_than as_of quote.quoted_at policy.max_quote_age_seconds)
      ∷ is_nil (strike_reasons unit policy.max_strike_distance_ratio contract.strike price)
      ∷ not (policy.require_greeks && not (is_some quote.greeks))
      ∷ []

  not-not : (b : Bool) → not (not b) ≡ b
  not-not b = ground arith

  and_true : (b : Bool) → (b && true) ≡ b
  and_true b = ground arith

  reasons-tests : is_nil (reasons_of unit contract price policy as_of) ≡ all_true tests
  unfolding reasons_of
  reasons-tests = simp (reason_laws, not-not, and_true)

  tests-IsLiquid :
      as_of.has_tzinfo ≡ true
      → All (λ b. b ≡ true) tests
      → IsLiquid unit contract price policy as_of
  tests-IsLiquid aware h =
      let (
        supported,
        (tradable, (dte, (quoted, (narrow, (deep, (interest, (age, (near, (greeks, _))))))))),
      ) =
        h in
      let bid : zero_decimal <ℤ contract.quote.bid = ground arith in
      let ask : zero_decimal <ℤ contract.quote.ask = ground arith in
      let (strike, _) = strike_iff unit policy.max_strike_distance_ratio contract.strike price in
      record {
        aware = aware;
        supported = supported;
        tradable = tradable;
        soon_enough = ground arith;
        late_enough = ground arith;
        bid_positive = bid;
        ask_positive = ask;
        narrow =
            (spread_iff unit policy.max_spread_ratio contract.quote bid ask).0 (not-true _ narrow);
        bid_deep = ground arith;
        ask_deep = ground arith;
        interest = (interest_iff policy.min_open_interest contract.quote.open_interest).0 interest;
        not_from_future = ground arith;
        recent = ground arith;
        price_positive = (strike near).0;
        near = (strike near).1;
        greeks = not-true _ greeks;
      }

  IsLiquid-tests : IsLiquid unit contract price policy as_of → All (λ b. b ≡ true) tests
  IsLiquid-tests h =
      let soon = h.soon_enough in
      let late = h.late_enough in
      let bid = h.bid_positive in
      let ask = h.ask_positive in
      let narrow = (spread_iff unit policy.max_spread_ratio contract.quote bid ask).1 h.narrow in
      let bid_deep = h.bid_deep in
      let ask_deep = h.ask_deep in
      let past = h.not_from_future in
      let recent = h.recent in
      let greeks = h.greeks in
      (
        h.supported,
        (
          h.tradable,
          (
            ground arith,
            (
              ground arith,
              (
                rw narrow refl,
                (
                  ground arith,
                  (
                    (interest_iff policy.min_open_interest contract.quote.open_interest).1
                        h.interest,
                    (
                      ground arith,
                      (
                        (strike_iff unit policy.max_strike_distance_ratio contract.strike price).1
                            (h.price_positive, h.near),
                        (rw greeks refl, tt),
                      ),
                    ),
                  ),
                ),
              ),
            ),
          ),
        ),
      )

  -- A contract is eligible just if the time is aware and every requirement of the policy is met:
  -- the underlying is supported, the contract tradable, its days to expiration in range, both sides
  -- of the quote positive and deep, the spread and the distance of the strike within their ratios,
  -- the open interest known and large enough where one is asked for, the quote neither from the
  -- future nor too old, the underlying's price positive, and Greeks there if they are required.
  pub evaluate_contract_iff :
      (is_eligible (evaluate_contract unit contract price policy as_of) ≡ true)
      ↔ IsLiquid unit contract price policy as_of
  unfolding evaluate_contract
  evaluate_contract_iff =
      let (split, join) = all_true_iff tests in
      rw (require_eligible as_of.has_tzinfo _) (
        λ h.
            let (aware, none_found) = and_parts as_of.has_tzinfo _ h in
            tests-IsLiquid aware (split (sym reasons-tests ∙ none_found)),
        λ h. simp h.aware (reasons-tests ∙ join (IsLiquid-tests h)),
      )
