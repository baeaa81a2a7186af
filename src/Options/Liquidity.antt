-- ===== src/Options/Liquidity.antt =====
-- packages/options/liquidity.py: `evaluate_contract`.
pub mod Eligible
mod Examples
use alpha_desk.Base.{
  ℕ, ◌≡◌, Bool, true, false, not, ◌&&◌, ◌||◌, Option, none, some, String, List, [], ◌∷◌, ◌++◌, when,
  any, is_nil, ltb, leb, str_eq, is_some, if◌then◌else◌,
}
use alpha_desk.Base.Integers.{ℤ, pos, ◌-ℤ◌, ltb_ℤ, leb_ℤ, abs}
use alpha_desk.Base.Results.{Result, ok, err, ◌>>◌, require}
use alpha_desk.Domain.Time.{Datetime, date_of, days_between, is_before, is_older_than}
use alpha_desk.Domain.Options.{
  Decimal, zero_decimal, OptionQuote, OptionContract, LiquidityPolicy, EligibilityResult,
  spread_ratio,
}
use alpha_desk.Domain.Quotient.{Quotient, ◌/ℤ◌, quotient_leb}

-- The `ValueError`.
pub data NaiveTime : Type 0 where
  naive_as_of : NaiveTime

abbrev pub is_supported : String → List String → Bool
is_supported symbol = any (λ s. str_eq s symbol)

-- Above a bound, or not known.
abbrev pub is_too_wide : ℕ → Decimal → Option Quotient → Bool
is_too_wide unit bound none = true
is_too_wide unit bound (some q) = not (quotient_leb unit q bound)

-- The reasons that the open interest gives.
unfoldable pub interest_reasons : Option ℕ → Option ℕ → List String
interest_reasons none _ = []
interest_reasons (some least) none = "open_interest_unavailable" ∷ []
interest_reasons (some least) (some n) = when (ltb n least) "open_interest_too_low"

-- The reasons that the distance of the strike from the underlying's price gives.
unfoldable pub strike_reasons : ℕ → Decimal → Decimal → Decimal → List String
strike_reasons unit bound strike price =
    if leb_ℤ price zero_decimal
    then "invalid_underlying_price" ∷ []
    else when (not (quotient_leb unit (abs (strike -ℤ price) /ℤ price) bound)) "strike_too_distant"

-- `unit` is the decimal 1.
module _ (unit : ℕ) where
  unfoldable pub reasons_of : OptionContract → Decimal → LiquidityPolicy → Datetime → List String
  reasons_of contract underlying_price policy as_of =
      let quote = contract.quote in
      let dte = days_between contract.expiration (date_of as_of) in
      when (not (is_supported contract.underlying_symbol policy.supported_underlyings))
        "unsupported_underlying"
      ++ (when (not contract.tradable) "not_tradable"
          ++ (when (not (leb_ℤ (pos policy.min_dte) dte && leb_ℤ dte (pos policy.max_dte)))
                "dte_out_of_range"
              ++ (when (leb_ℤ quote.bid zero_decimal || leb_ℤ quote.ask zero_decimal)
                    "non_executable_quote"
                  ++ (when (is_too_wide unit policy.max_spread_ratio (spread_ratio quote))
                        "spread_too_wide"
                      ++ (when
                            (ltb_ℤ quote.bid_size policy.min_quote_size
                              || ltb_ℤ quote.ask_size policy.min_quote_size)
                            "quote_size_too_small"
                          ++ (interest_reasons policy.min_open_interest quote.open_interest
                              ++ (when
                                    (is_before as_of quote.quoted_at
                                      || is_older_than as_of quote.quoted_at
                                          policy.max_quote_age_seconds)
                                    "stale_quote"
                                  ++ (strike_reasons unit policy.max_strike_distance_ratio
                                        contract.strike underlying_price
                                      ++ when (policy.require_greeks && not (is_some quote.greeks))
                                          "greeks_unavailable"))))))))

  unfoldable pub evaluate_contract :
      OptionContract → Decimal → LiquidityPolicy → Datetime → Result NaiveTime EligibilityResult
  evaluate_contract contract underlying_price policy as_of = do
    require as_of.has_tzinfo naive_as_of
    let reasons = reasons_of contract underlying_price policy as_of
    ok (record { eligible = is_nil reasons; reasons = reasons })
