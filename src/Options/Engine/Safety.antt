-- ===== src/Options/Engine/Safety.antt =====
-- The loss and the profit that `build_structure` (packages/options/engine.py) reports bound the
-- payoff at expiration of every structure that it accepts.
use alpha_desk.Base.{ℕ, ◌*◌, ◌≡◌, ◌∙◌, ap, String, Bool, true, false, Option, List, arith, All}
use alpha_desk.Base.Integers.{
  ℤ, pos, pos_part, ◌+ℤ◌, ◌*ℤ◌, ◌≤ℤ◌, leb_ℤ, neg, int_laws, le→leb_ℤ, abs, ◌-ℤ◌, *ℤ_mono, max_zero,
}
use alpha_desk.Base.Results.{ok, bind-ok, require-ok}
use alpha_desk.Domain.Options.{
  Decimal, zero_decimal, call, put, StructureType, long_call, long_put, bull_call_debit_spread,
  bear_put_debit_spread, bull_put_credit_spread, bear_call_credit_spread, protective_put,
  protective_put_spread, OptionLeg, UnderlyingLeg, OptionStructure, LegIsValid, StructureIsValid,
  Greeks, NonnegIfSome, OptionType,
}
use alpha_desk.Options.Engine.{
  Terms, terms_of, premium_of, validate_common, aggregate_greeks, build_structure,
  expiration_payoff, add_underlying, quantity_not_positive, loss_not_bounded, vertical_terms,
  protective_terms,
}
use alpha_desk.Options.Engine.Share.{
  shares_of, IsPlain, payoff_from-shares, validate_common-IsPlain,
}
use alpha_desk.Options.Engine.Inversion.{
  IsSpread, spread_terms, long_option_terms-ok, vertical_terms-ok, protective_terms-ok,
}
use alpha_desk.Options.Engine.Bounds.{
  AtMost, IsBounded, long_option-IsBounded, vertical-IsBounded, protective-IsBounded,
}

-- What an accepted structure is made of.
pub record IsBuilt (kind : StructureType) (legs : List OptionLeg) (quantity : ℤ)
    (underlying : Option UnderlyingLeg) (s : OptionStructure) : Type 0 where
  pub symbol : String
  pub multiplier : ℕ
  pub computed : Terms
  pub greeks : Greeks
  pub common : validate_common legs ≡ ok (symbol, multiplier)
  pub priced : terms_of kind symbol multiplier (pos_part quantity) legs underlying ≡ ok computed
  pub positive : pos 1 ≤ℤ quantity
  pub loss_nonneg : pos 0 ≤ℤ computed.max_loss
  pub shape : s ≡ record {
    structure_type = kind;
    quantity = pos_part quantity;
    legs = legs;
    underlying = underlying;
    net_premium_per_share = premium_of legs;
    max_loss = computed.max_loss;
    max_profit = computed.max_profit;
    break_evens = computed.break_evens;
    greeks = greeks;
  }

pub build_structure-IsBuilt :
    (unit : ℕ) (kind : StructureType) (legs : List OptionLeg) (quantity : ℤ)
    (underlying : Option UnderlyingLeg) {s : OptionStructure}
    → build_structure unit kind legs quantity underlying ≡ ok s
    → IsBuilt kind legs quantity underlying s
unfolding build_structure
build_structure-IsBuilt unit kind legs quantity underlying h =
    let (common, found, after_common) = bind-ok (validate_common legs) _ h in
    let (positive, after_quantity) =
      require-ok (leb_ℤ (pos 1) quantity) quantity_not_positive _ after_common in
    let (computed, priced, after_terms) =
      bind-ok (terms_of kind common.0 common.1 (pos_part quantity) legs underlying) _
        after_quantity in
    let (bounded, after_loss) =
      require-ok (leb_ℤ zero_decimal computed.max_loss) loss_not_bounded _ after_terms in
    let (greeks, _, last) =
      bind-ok (aggregate_greeks unit legs (pos_part quantity) underlying) _ after_loss in
    record {
      symbol = common.0;
      multiplier = common.1;
      computed = computed;
      greeks = greeks;
      common = found;
      priced = priced;
      positive = ground arith;
      loss_nonneg = ground arith;
      shape = ground arith;
    }

abbrev plain_payoff : List OptionLeg → Option UnderlyingLeg → ℕ → Decimal → Decimal
plain_payoff legs underlying n price =
    add_underlying underlying price (shares_of legs price *ℤ pos n)

terms_of-IsBounded :
    (kind : StructureType) (symbol : String) (m q : ℕ) (legs : List OptionLeg)
    (underlying : Option UnderlyingLeg) (p : ℤ) {t : Terms}
    → All (IsPlain m) legs
    → All LegIsValid legs
    → pos 0 ≤ℤ p
    → terms_of kind symbol m q legs underlying ≡ ok t
    → IsBounded t (plain_payoff legs underlying (m * q) p)
unfolding terms_of add_underlying
terms_of-IsBounded long_call symbol m q legs u p plain valid hp h =
    let (e, b) = long_option-IsBounded call legs u m (m * q) p plain valid hp h in rw e b
terms_of-IsBounded long_put symbol m q legs u p plain valid hp h =
    let (e, b) = long_option-IsBounded put legs u m (m * q) p plain valid hp h in rw e b
terms_of-IsBounded bull_call_debit_spread symbol m q legs u p plain valid hp h =
    let (e, b) = vertical-IsBounded true call legs u m (m * q) p plain h in rw e b
terms_of-IsBounded bear_put_debit_spread symbol m q legs u p plain valid hp h =
    let (e, b) = vertical-IsBounded true put legs u m (m * q) p plain h in rw e b
terms_of-IsBounded bull_put_credit_spread symbol m q legs u p plain valid hp h =
    let (e, b) = vertical-IsBounded false put legs u m (m * q) p plain h in rw e b
terms_of-IsBounded bear_call_credit_spread symbol m q legs u p plain valid hp h =
    let (e, b) = vertical-IsBounded false call legs u m (m * q) p plain h in rw e b
terms_of-IsBounded protective_put symbol m q legs u p plain valid hp h =
    protective-IsBounded false symbol m q legs u p plain valid hp h
terms_of-IsBounded protective_put_spread symbol m q legs u p plain valid hp h =
    protective-IsBounded true symbol m q legs u p plain valid hp h

zero_add : (x : ℤ) → pos 0 +ℤ x ≡ x
zero_add x = omega int_laws

-- The payoff of a structure, computed for one share and scaled.
pub expiration_payoff-plain :
    (kind : StructureType) (legs : List OptionLeg) (quantity : ℤ)
    (underlying : Option UnderlyingLeg) (s : OptionStructure) (price : Decimal)
    (built : IsBuilt kind legs quantity underlying s)
    → pos 0 ≤ℤ price
    → expiration_payoff s price
      ≡ ok (plain_payoff legs underlying (built.multiplier * pos_part quantity) price)
unfolding expiration_payoff
expiration_payoff-plain kind legs quantity underlying s price built hp =
    let n = built.multiplier * pos_part quantity in
    let plain = validate_common-IsPlain legs built.common in
    let scaled = payoff_from-shares legs built.multiplier (pos_part quantity) price (pos 0) plain in
    rw (le→leb_ℤ (pos 0) price hp, built.shape)
      (ap (λ x. ok (add_underlying underlying price x))
        (scaled ∙ zero_add (shares_of legs price *ℤ pos n)))

spread_profit :
    (is_debit : Bool) (wanted : OptionType) (a b premium : ℤ) (n : ℕ)
    → IsSpread is_debit wanted a b premium
    → NonnegIfSome (spread_terms is_debit wanted a b premium (pos n)).max_profit
spread_profit true wanted a b premium n h =
    omega (int_laws, *ℤ_mono (pos 0) (abs (a -ℤ b) -ℤ premium) n (omega (int_laws, h.below_width)))
spread_profit false wanted a b premium n h =
    omega (int_laws, *ℤ_mono (pos 0) (neg premium) n (omega (int_laws, h.positive)))

vertical_profit :
    (is_debit : Bool) (wanted : OptionType) (legs : List OptionLeg) (u : Option UnderlyingLeg)
    (n : ℕ) {t : Terms}
    → vertical_terms is_debit wanted legs u (premium_of legs) (pos n) ≡ ok t
    → NonnegIfSome t.max_profit
vertical_profit is_debit wanted legs u n h =
    let (a, b, _, _, _, _, spread, shape) = vertical_terms-ok is_debit wanted legs u _ _ h in
    rw shape (spread_profit is_debit wanted _ _ (premium_of legs) n spread)

protective_profit :
    (is_spread : Bool) (symbol : String) (m q : ℕ) (legs : List OptionLeg)
    (u : Option UnderlyingLeg) (premium n : ℤ) {t : Terms}
    → protective_terms is_spread symbol m q legs u premium n ≡ ok t
    → NonnegIfSome t.max_profit
protective_profit is_spread symbol m q legs u premium n h =
    let (_, _, _, _, _, _, _, shape) =
      protective_terms-ok is_spread symbol m q legs u premium n h in
    rw shape tt

terms_of-profit :
    (kind : StructureType) (symbol : String) (m q : ℕ) (legs : List OptionLeg)
    (u : Option UnderlyingLeg) {t : Terms}
    → terms_of kind symbol m q legs u ≡ ok t
    → NonnegIfSome t.max_profit
unfolding terms_of
terms_of-profit long_call symbol m q legs u h =
    let (_, _, _, _, _, _, shape) = long_option_terms-ok call legs u _ _ h in rw shape tt
terms_of-profit long_put symbol m q legs u h =
    let (a, _, _, _, _, _, shape) = long_option_terms-ok put legs u _ _ h in
    rw (shape, max_zero ((a.contract.strike -ℤ premium_of legs) *ℤ pos (m * q))) (omega arith)
terms_of-profit bull_call_debit_spread symbol m q legs u h = vertical_profit true call legs u _ h
terms_of-profit bear_put_debit_spread symbol m q legs u h = vertical_profit true put legs u _ h
terms_of-profit bull_put_credit_spread symbol m q legs u h = vertical_profit false put legs u _ h
terms_of-profit bear_call_credit_spread symbol m q legs u h = vertical_profit false call legs u _ h
terms_of-profit protective_put symbol m q legs u h = protective_profit false symbol m q legs u _ _ h
terms_of-profit protective_put_spread symbol m q legs u h =
    protective_profit true symbol m q legs u _ _ h

-- A structure that `build_structure` returns meets the bounds that `OptionStructure` puts on its
-- fields: a quantity of at least one, and a maximum loss and a maximum profit that are not negative.
pub build_structure-StructureIsValid :
    (unit : ℕ) (kind : StructureType) (legs : List OptionLeg) (quantity : ℤ)
    (underlying : Option UnderlyingLeg) {s : OptionStructure}
    → build_structure unit kind legs quantity underlying ≡ ok s
    → StructureIsValid s
build_structure-StructureIsValid unit kind legs quantity underlying h =
    let built = build_structure-IsBuilt unit kind legs quantity underlying h in
    rw built.shape (record {
      quantity_positive = omega (arith, built.positive);
      max_loss_nonneg = built.loss_nonneg;
      max_profit_nonneg = terms_of-profit kind _ _ _ legs underlying built.priced;
    })

-- If `build_structure` accepts valid legs, then at every price that is not negative the structure
-- has a payoff at expiration, which is a loss of at most `max_loss`, and at most `max_profit` where
-- that is given.
pub build_structure-bounds_payoff :
    (unit : ℕ) (kind : StructureType) (legs : List OptionLeg) (quantity : ℤ)
    (underlying : Option UnderlyingLeg) {s : OptionStructure} (price : Decimal)
    → All LegIsValid legs
    → build_structure unit kind legs quantity underlying ≡ ok s
    → pos 0 ≤ℤ price
    → (payoff : Decimal) × (expiration_payoff s price ≡ ok payoff)
      × (neg s.max_loss ≤ℤ payoff)
      × AtMost payoff s.max_profit
build_structure-bounds_payoff unit kind legs quantity underlying {s} price valid h hp =
    let built = build_structure-IsBuilt unit kind legs quantity underlying h in
    let n = built.multiplier * pos_part quantity in
    let plain = validate_common-IsPlain legs built.common in
    let bounded =
      terms_of-IsBounded kind built.symbol built.multiplier (pos_part quantity) legs underlying
        price plain valid hp built.priced in
    (
      plain_payoff legs underlying n price,
      expiration_payoff-plain kind legs quantity underlying s price built hp,
      rw built.shape bounded.loss,
      rw built.shape bounded.profit,
    )
