-- ===== src/Options/Engine.antt =====
-- packages/options/engine.py: which combinations of legs make a structure, what it can lose and
-- gain, and its payoff at expiration.
pub mod Share
pub mod Inversion
pub mod Bounds
pub mod Safety
pub mod Acceptance
mod Examples
use alpha_desk.Base.{
  ℕ, ◌*◌, Bool, true, false, not, ◌&&◌, Option, none, some, List, [], ◌∷◌, String, ◌==◌, str_eq,
  if◌then◌else◌, all, is_some,
}
use alpha_desk.Base.Integers.{ℤ, pos, pos_part, ◌+ℤ◌, ◌-ℤ◌, ◌*ℤ◌, ltb_ℤ, leb_ℤ, neg, abs, max}
use alpha_desk.Base.Results.{Result, ok, err, ◌>>=◌, ◌>>◌, require}
use alpha_desk.Domain.Options.{
  Decimal, zero_decimal, OptionType, call, put, LegSide, long, short, sign, StructureType,
  long_call, long_put, bull_call_debit_spread, bear_put_debit_spread, bull_put_credit_spread,
  bear_call_credit_spread, protective_put, protective_put_spread, Greeks, OptionLeg, UnderlyingLeg,
  OptionStructure,
}

-- The messages with which `InvalidOptionStructure` is raised.
pub data InvalidOptionStructure : Type 0 where
  leg_required ratio_unsupported underlying_mismatch expiration_mismatch : InvalidOptionStructure
  multiplier_mismatch greeks_unavailable quantity_not_positive : InvalidOptionStructure
  one_long_leg_required wrong_option_type underlying_not_allowed : InvalidOptionStructure
  long_option_not_debit two_legs_required both_sides_required : InvalidOptionStructure
  option_type_mismatch width_not_positive debit_out_of_range : InvalidOptionStructure
  credit_out_of_range bull_call_strikes bear_put_strikes : InvalidOptionStructure
  bull_put_strikes bear_call_strikes underlying_required : InvalidOptionStructure
  underlying_symbol_mismatch protective_shares put_legs_required : InvalidOptionStructure
  protective_not_debit one_long_put_required long_and_short_puts_required : InvalidOptionStructure
  protective_put_spread_strikes loss_not_bounded negative_price : InvalidOptionStructure

abbrev pub Checked : Type 0 → Type 0
Checked = Result InvalidOptionStructure

abbrev pub is_call : OptionType → Bool
is_call call = true
is_call put = false

abbrev pub is_long : LegSide → Bool
is_long long = true
is_long short = false

abbrev pub same_type : OptionType → OptionType → Bool
same_type call t = is_call t
same_type put t = not (is_call t)

-- The loop of `_validate_common`, against the contract of the first leg.
unfoldable pub validate_legs : OptionLeg → List OptionLeg → Checked (Unit {0})
validate_legs first [] = ok tt
validate_legs first (leg ∷ legs) = do
  require (leg.ratio == 1) ratio_unsupported
  require (str_eq leg.contract.underlying_symbol first.contract.underlying_symbol)
      underlying_mismatch
  require (leg.contract.expiration == first.contract.expiration) expiration_mismatch
  require (leg.contract.multiplier == first.contract.multiplier) multiplier_mismatch
  validate_legs first legs

-- `_validate_common`: the symbol and the multiplier that the legs share.
unfoldable pub validate_common : List OptionLeg → Checked (String × ℕ)
validate_common [] = err leg_required
validate_common (first ∷ legs) = do
  validate_legs first (first ∷ legs)
  ok (first.contract.underlying_symbol, first.contract.multiplier)

-- `_premium`
unfoldable pub premium_of : List OptionLeg → Decimal
premium_of [] = zero_decimal
premium_of (leg ∷ legs) = sign leg.side *ℤ leg.entry_price *ℤ pos leg.ratio +ℤ premium_of legs

abbrev no_greeks : Greeks
no_greeks = record {
  delta = zero_decimal;
  gamma = zero_decimal;
  theta = zero_decimal;
  vega = zero_decimal;
}

abbrev add_scaled : Greeks → Greeks → ℤ → Greeks
add_scaled totals greeks scale = record {
  delta = totals.delta +ℤ greeks.delta *ℤ scale;
  gamma = totals.gamma +ℤ greeks.gamma *ℤ scale;
  theta = totals.theta +ℤ greeks.theta *ℤ scale;
  vega = totals.vega +ℤ greeks.vega *ℤ scale;
}

abbrev or_raise {ℓ} :
    {A : Type ℓ} → Option A → InvalidOptionStructure → Result InvalidOptionStructure A
or_raise none e = err e
or_raise (some a) _ = ok a

abbrev leg_scale : OptionLeg → ℕ → ℤ
leg_scale leg quantity =
    sign leg.side *ℤ pos leg.ratio *ℤ pos quantity *ℤ pos leg.contract.multiplier

-- The loop of `aggregate_greeks` over the legs.
unfoldable pub add_leg_greeks : List OptionLeg → ℕ → Greeks → Checked Greeks
add_leg_greeks [] quantity totals = ok totals
add_leg_greeks (leg ∷ legs) quantity totals = do
  greeks ← or_raise leg.contract.quote.greeks greeks_unavailable
  add_leg_greeks legs quantity (add_scaled totals greeks (leg_scale leg quantity))

-- One share has a delta of one, in the unit of the decimals.
unfoldable pub add_shares : ℕ → Option UnderlyingLeg → Greeks → Greeks
add_shares unit none totals = totals
add_shares unit (some underlying) totals = record totals {
  delta = totals.delta +ℤ pos (underlying.shares * unit);
}

unfoldable pub aggregate_greeks : ℕ → List OptionLeg → ℕ → Option UnderlyingLeg → Checked Greeks
aggregate_greeks unit legs quantity underlying = do
  totals ← add_leg_greeks legs quantity no_greeks
  ok (add_shares unit underlying totals)

-- `len(legs) == 1 and legs[0].side is LONG`, with the leg.
pub one_long_leg : InvalidOptionStructure → List OptionLeg → Checked OptionLeg
one_long_leg e [] = err e
one_long_leg e (leg ∷ []) = if is_long leg.side then ok leg else err e
one_long_leg e (_ ∷ _ ∷ _) = err e

abbrev by_side :
    LegSide
    → LegSide
    → OptionLeg
    → OptionLeg
    → InvalidOptionStructure
    → Checked (OptionLeg × OptionLeg)
by_side long short a b e = ok (a, b)
by_side short long a b e = ok (b, a)
by_side _ _ a b e = err e

-- Exactly two legs, one of each side: the long one and the short one.
unfoldable pub long_and_short :
    InvalidOptionStructure
    → InvalidOptionStructure
    → List OptionLeg
    → Checked (OptionLeg × OptionLeg)
long_and_short two sides [] = err two
long_and_short two sides (_ ∷ []) = err two
long_and_short two sides (a ∷ b ∷ []) = by_side a.side b.side a b sides
long_and_short two sides (_ ∷ _ ∷ _ ∷ _) = err two

-- What a branch of `build_structure` computes.
pub record Terms : Type 0 where
  pub max_loss : Decimal
  pub max_profit : Option Decimal
  pub break_evens : List Decimal

abbrev terms : Decimal → Option Decimal → Decimal → Terms
terms loss profit even = record { max_loss = loss; max_profit = profit; break_evens = even ∷ [] }

pub long_option_terms :
    OptionType → List OptionLeg → Option UnderlyingLeg → Decimal → ℤ → Checked Terms
long_option_terms wanted legs underlying premium scale = do
  leg ← one_long_leg one_long_leg_required legs
  require (same_type wanted leg.contract.option_type) wrong_option_type
  require (not (is_some underlying)) underlying_not_allowed
  require (ltb_ℤ zero_decimal premium) long_option_not_debit
  let strike = leg.contract.strike
  ok (
      if is_call wanted
      then terms (premium *ℤ scale) none (strike +ℤ premium)
      else terms (premium *ℤ scale) (some (max ((strike -ℤ premium) *ℤ scale) zero_decimal))
          (strike -ℤ premium))

-- A debit spread: a call spread for `call`, a put spread for `put`.
unfoldable pub debit_terms : OptionType → Decimal → Decimal → Decimal → Decimal → ℤ → Checked Terms
debit_terms wanted long_strike short_strike width premium scale = do
  require (ltb_ℤ zero_decimal premium && ltb_ℤ premium width) debit_out_of_range
  if is_call wanted
      then require (ltb_ℤ long_strike short_strike) bull_call_strikes
      else require (ltb_ℤ short_strike long_strike) bear_put_strikes
  ok (
      terms (premium *ℤ scale) (some ((width -ℤ premium) *ℤ scale))
        (if is_call wanted then long_strike +ℤ premium else long_strike -ℤ premium))

-- A credit spread: a put spread for `put`, a call spread for `call`.
pub credit_terms : OptionType → Decimal → Decimal → Decimal → Decimal → ℤ → Checked Terms
credit_terms wanted long_strike short_strike width premium scale = do
  let credit = neg premium
  require (ltb_ℤ zero_decimal credit && ltb_ℤ credit width) credit_out_of_range
  if is_call wanted
      then require (ltb_ℤ short_strike long_strike) bear_call_strikes
      else require (ltb_ℤ long_strike short_strike) bull_put_strikes
  ok (
      terms ((width -ℤ credit) *ℤ scale) (some (credit *ℤ scale))
        (if is_call wanted then short_strike +ℤ credit else short_strike -ℤ credit))

unfoldable pub vertical_terms :
    Bool → OptionType → List OptionLeg → Option UnderlyingLeg → Decimal → ℤ → Checked Terms
vertical_terms is_debit wanted legs underlying premium scale = do
  pair ← long_and_short two_legs_required both_sides_required legs
  require (not (is_some underlying)) underlying_not_allowed
  require (all (λ leg. same_type wanted leg.contract.option_type) legs) option_type_mismatch
  let long_strike = pair.0.contract.strike
  let short_strike = pair.1.contract.strike
  let width = abs (long_strike -ℤ short_strike)
  require (ltb_ℤ zero_decimal width) width_not_positive
  if is_debit
      then debit_terms wanted long_strike short_strike width premium scale
      else credit_terms wanted long_strike short_strike width premium scale

-- The lowest value that the put legs leave to the protected shares.
pub protected_floor : Bool → List OptionLeg → Checked Decimal
protected_floor false legs = do
  leg ← one_long_leg one_long_put_required legs
  ok leg.contract.strike
protected_floor true legs = do
  pair ← long_and_short two_legs_required long_and_short_puts_required legs
  require (ltb_ℤ pair.1.contract.strike pair.0.contract.strike) protective_put_spread_strikes
  ok (pair.0.contract.strike -ℤ pair.1.contract.strike)

pub protective_terms :
    Bool → String → ℕ → ℕ → List OptionLeg → Option UnderlyingLeg → Decimal → ℤ → Checked Terms
protective_terms is_spread symbol multiplier quantity legs underlying premium scale = do
  shares ← or_raise underlying underlying_required
  require (str_eq shares.symbol symbol) underlying_symbol_mismatch
  require (shares.shares == multiplier * quantity) protective_shares
  require (all (λ leg. same_type put leg.contract.option_type) legs) put_legs_required
  require (ltb_ℤ zero_decimal premium) protective_not_debit
  floor ← protected_floor is_spread legs
  ok (
      terms (max ((shares.entry_price +ℤ premium -ℤ floor) *ℤ scale) zero_decimal) none
        (shares.entry_price +ℤ premium))

-- The branches of `build_structure`, by the type of the structure.
unfoldable pub terms_of :
    StructureType → String → ℕ → ℕ → List OptionLeg → Option UnderlyingLeg → Checked Terms
terms_of kind symbol multiplier quantity legs underlying =
    let premium = premium_of legs in
    let scale = pos (multiplier * quantity) in
    elim kind [
      | long_call ↦ long_option_terms call legs underlying premium scale
      | long_put ↦ long_option_terms put legs underlying premium scale
      | bull_call_debit_spread ↦ vertical_terms true call legs underlying premium scale
      | bear_put_debit_spread ↦ vertical_terms true put legs underlying premium scale
      | bull_put_credit_spread ↦ vertical_terms false put legs underlying premium scale
      | bear_call_credit_spread ↦ vertical_terms false call legs underlying premium scale
      | protective_put ↦
          protective_terms false symbol multiplier quantity legs underlying premium scale
      | protective_put_spread ↦
          protective_terms true symbol multiplier quantity legs underlying premium scale
    ]

-- `unit` is the decimal 1, counted in the unit of the decimals.
unfoldable pub build_structure :
    ℕ → StructureType → List OptionLeg → ℤ → Option UnderlyingLeg → Checked OptionStructure
build_structure unit kind legs quantity underlying = do
  common ← validate_common legs
  require (leb_ℤ (pos 1) quantity) quantity_not_positive
  let count = pos_part quantity
  computed ← terms_of kind common.0 common.1 count legs underlying
  require (leb_ℤ zero_decimal computed.max_loss) loss_not_bounded
  greeks ← aggregate_greeks unit legs count underlying
  ok (record {
    structure_type = kind;
    quantity = count;
    legs = legs;
    underlying = underlying;
    net_premium_per_share = premium_of legs;
    max_loss = computed.max_loss;
    max_profit = computed.max_profit;
    break_evens = computed.break_evens;
    greeks = greeks;
  })

abbrev intrinsic : OptionType → Decimal → Decimal → Decimal
intrinsic call strike price = max (price -ℤ strike) zero_decimal
intrinsic put strike price = max (strike -ℤ price) zero_decimal

-- The loop of `expiration_payoff` over the legs.
pub payoff_from : List OptionLeg → ℕ → Decimal → Decimal → Decimal
payoff_from [] quantity price payoff = payoff
payoff_from (leg ∷ legs) quantity price payoff =
    let contract = leg.contract in
    let gain =
      sign leg.side
      *ℤ intrinsic contract.option_type contract.strike price
      *ℤ pos leg.ratio
      *ℤ pos contract.multiplier
      *ℤ pos quantity in
    let cost =
      sign leg.side
      *ℤ leg.entry_price
      *ℤ pos leg.ratio
      *ℤ pos contract.multiplier
      *ℤ pos quantity in
    payoff_from legs quantity price (payoff +ℤ gain -ℤ cost)

pub add_underlying : Option UnderlyingLeg → Decimal → Decimal → Decimal
add_underlying none price payoff = payoff
add_underlying (some underlying) price payoff =
    payoff +ℤ (price -ℤ underlying.entry_price) *ℤ pos underlying.shares

pub expiration_payoff : OptionStructure → Decimal → Checked Decimal
expiration_payoff structure price = do
  require (leb_ℤ zero_decimal price) negative_price
  ok (
      add_underlying structure.underlying price
        (payoff_from structure.legs structure.quantity price zero_decimal))
