-- ===== src/Options/Engine/Acceptance.antt =====
-- That `build_structure` (packages/options/engine.py) accepts the vertical debit spreads that it
-- means to accept.
use alpha_desk.Base.{◌≡◌, some, List, [], ◌∷◌}
use alpha_desk.Base.Integers.{◌-ℤ◌, ◌<ℤ◌, abs}
use alpha_desk.Domain.Options.{
  Decimal, zero_decimal, OptionType, call, put, long, short, StructureType, bull_call_debit_spread,
  bear_put_debit_spread, Greeks, OptionLeg,
}
use alpha_desk.Options.Engine.{premium_of}

abbrev pub debit_spread : OptionType → StructureType
debit_spread call = bull_call_debit_spread
debit_spread put = bear_put_debit_spread

-- The strikes of the long and of the short leg, in the order in which the spread gains.
abbrev pub Gains : OptionType → Decimal → Decimal → Type 0
Gains call bought sold = bought <ℤ sold
Gains put bought sold = sold <ℤ bought

-- A long and a short leg that make a debit spread: they agree in all but side, strike and price, and
-- the debit is positive and below the distance of the strikes.
pub record IsDebitPair (wanted : OptionType) (a b : OptionLeg) : Type 0 where
  pub a_long : a.side ≡ long
  pub b_short : b.side ≡ short
  pub a_ratio : a.ratio ≡ 1
  pub b_ratio : b.ratio ≡ 1
  pub underlying : b.contract.underlying_symbol ≡ a.contract.underlying_symbol
  pub expiration : b.contract.expiration ≡ a.contract.expiration
  pub multiplier : b.contract.multiplier ≡ a.contract.multiplier
  pub a_type : a.contract.option_type ≡ wanted
  pub b_type : b.contract.option_type ≡ wanted
  pub a_greeks : (g : Greeks) × (a.contract.quote.greeks ≡ some g)
  pub b_greeks : (g : Greeks) × (b.contract.quote.greeks ≡ some g)
  pub strikes : Gains wanted a.contract.strike b.contract.strike
  pub debit : zero_decimal <ℤ premium_of (a ∷ b ∷ [])
  pub below_width : premium_of (a ∷ b ∷ []) <ℤ abs (a.contract.strike -ℤ b.contract.strike)

module _ (wanted : OptionType) (a b : OptionLeg) (pair : IsDebitPair wanted a b) where
  abbrev legs : List OptionLeg
  legs = a ∷ b ∷ []
