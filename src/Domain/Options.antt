-- ===== src/Domain/Options.antt =====
-- packages/domain/options.py: option contracts, legs and structures.
-- A `Decimal` is an integer that counts a fixed unit small enough for every amount at hand. Sums,
-- differences, orders and products by an `int` or by a sign are then exact, as they are in Python
-- for results of at most 28 digits. What pydantic's `Field` refuses stands in the `IsValid`
-- records; integers with a lower bound of zero or one are native numbers.
use alpha_desk.Base.{
  ℕ, ◌≤◌, Bool, Option, none, some, List, String, not, is_some, ◌==◌, leb, if◌then◌else◌,
}
use alpha_desk.Base.Integers.{ℤ, pos, negsuc, ◌≤ℤ◌, ◌<ℤ◌, ltb_ℤ, leb_ℤ, ◌+ℤ◌, ◌-ℤ◌, ◌*ℤ◌}
use alpha_desk.Base.Results.{Result, ok, ◌>>◌, require}
use alpha_desk.Domain.Time.{Datetime, Date}
use alpha_desk.Domain.Quotient.{Quotient, ◌/ℤ◌}

abbrev pub Decimal : Type 0
Decimal = ℤ

abbrev pub zero_decimal : Decimal
zero_decimal = pos 0

pub data OptionType : Type 0 where
  call put : OptionType

pub data LegSide : Type 0 where
  long short : LegSide

-- The property `LegSide.sign`.
abbrev pub sign : LegSide → ℤ
sign long = pos 1
sign short = negsuc 0

pub data StructureType : Type 0 where
  long_call long_put : StructureType
  bull_call_debit_spread bear_put_debit_spread : StructureType
  bull_put_credit_spread bear_call_credit_spread : StructureType
  protective_put protective_put_spread : StructureType

abbrev structure_code : StructureType → ℕ
structure_code long_call = 0
structure_code long_put = 1
structure_code bull_call_debit_spread = 2
structure_code bear_put_debit_spread = 3
structure_code bull_put_credit_spread = 4
structure_code bear_call_credit_spread = 5
structure_code protective_put = 6
structure_code protective_put_spread = 7

-- `a is b` of two types of structures.
abbrev pub same_structure_type : StructureType → StructureType → Bool
same_structure_type a b = structure_code a == structure_code b

pub record Greeks : Type 0 where
  pub delta : Decimal
  pub gamma : Decimal
  pub theta : Decimal
  pub vega : Decimal

pub record OptionQuote : Type 0 where
  pub bid : Decimal
  pub ask : Decimal
  pub bid_size : Decimal
  pub ask_size : Decimal
  pub quoted_at : Datetime
  pub open_interest : Option ℕ
  pub volume : Option ℕ
  pub implied_volatility : Option Decimal
  pub greeks : Option Greeks

pub data QuoteError : Type 0 where
  naive_quoted_at crossed_option_quote : QuoteError

-- The validator of `OptionQuote`.
pub validate_market : OptionQuote → Result QuoteError OptionQuote
validate_market quote = do
  require quote.quoted_at.has_tzinfo naive_quoted_at
  require (not (ltb_ℤ quote.ask quote.bid)) crossed_option_quote
  ok quote

-- The property `midpoint`.
pub midpoint : OptionQuote → Quotient
midpoint quote = (quote.bid +ℤ quote.ask) /ℤ pos 2

-- The property `spread_ratio`: the spread through the midpoint, multiplied out.
unfoldable pub spread_ratio : OptionQuote → Option Quotient
spread_ratio quote =
    if leb_ℤ (quote.bid +ℤ quote.ask) zero_decimal
    then none
    else some (((quote.ask -ℤ quote.bid) *ℤ pos 2) /ℤ (quote.bid +ℤ quote.ask))

pub record OptionContract : Type 0 where
  pub contract_id : String
  pub symbol : String
  pub underlying_symbol : String
  pub expiration : Date
  pub strike : Decimal
  pub option_type : OptionType
  pub multiplier : ℕ
  pub tradable : Bool
  pub quote : OptionQuote

pub record OptionLeg : Type 0 where
  pub contract : OptionContract
  pub side : LegSide
  pub ratio : ℕ
  pub entry_price : Decimal

-- The bounds of the fields of a leg and of its contract.
pub record LegIsValid (leg : OptionLeg) : Type 0 where
  pub strike_positive : pos 0 <ℤ leg.contract.strike
  pub multiplier_positive : 1 ≤ leg.contract.multiplier
  pub ratio_positive : 1 ≤ leg.ratio
  pub entry_nonneg : pos 0 ≤ℤ leg.entry_price

pub record UnderlyingLeg : Type 0 where
  pub symbol : String
  pub shares : ℕ
  pub entry_price : Decimal

pub record OptionStructure : Type 0 where
  pub structure_type : StructureType
  pub quantity : ℕ
  pub legs : List OptionLeg
  pub underlying : Option UnderlyingLeg
  pub net_premium_per_share : Decimal
  pub max_loss : Decimal
  pub max_profit : Option Decimal
  pub break_evens : List Decimal
  pub greeks : Greeks

abbrev pub NonnegIfSome : Option Decimal → Type 0
NonnegIfSome none = Unit
NonnegIfSome (some d) = pos 0 ≤ℤ d

-- The bounds of the fields of a structure.
pub record StructureIsValid (s : OptionStructure) : Type 0 where
  pub quantity_positive : 1 ≤ s.quantity
  pub max_loss_nonneg : pos 0 ≤ℤ s.max_loss
  pub max_profit_nonneg : NonnegIfSome s.max_profit

-- The property `is_max_profit_unbounded`.
pub is_max_profit_unbounded : OptionStructure → Bool
is_max_profit_unbounded s = not (is_some s.max_profit)

pub record LiquidityPolicy : Type 0 where
  pub supported_underlyings : List String
  pub min_dte : ℕ
  pub max_dte : ℕ
  pub max_spread_ratio : Decimal
  pub min_open_interest : Option ℕ
  pub min_quote_size : Decimal
  pub max_strike_distance_ratio : Decimal
  pub max_quote_age_seconds : ℕ
  pub require_greeks : Bool

-- The validator `validate_dte_range`.
pub dte_range_is_valid : LiquidityPolicy → Bool
dte_range_is_valid policy = leb policy.min_dte policy.max_dte

pub record EligibilityResult : Type 0 where
  pub eligible : Bool
  pub reasons : List String
