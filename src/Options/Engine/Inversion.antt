-- ===== src/Options/Engine/Inversion.antt =====
-- What a branch of `build_structure` (packages/options/engine.py) has tested when it returns.
use alpha_desk.Base.{
  ℕ, ◌*◌, ◌≡◌, refl, sym, ◌⊎◌, inl, inr, Bool, true, false, not, Option, none, some, String, List,
  [], ◌∷◌, arith, all, is_some, if◌then◌else◌, str_eq, ◌==◌,
}
use alpha_desk.Base.Integers.{ℤ, pos, ◌+ℤ◌, ◌-ℤ◌, ◌*ℤ◌, ◌<ℤ◌, neg, abs, max, ltb_ℤ}
use alpha_desk.Base.Results.{ok, bind-ok, require-ok}
use alpha_desk.Domain.Options.{
  Decimal, zero_decimal, OptionType, call, put, LegSide, long, short, OptionLeg, UnderlyingLeg,
}
use alpha_desk.Options.Engine.{
  InvalidOptionStructure, same_type, by_side, one_long_leg, long_and_short, Terms, terms,
  long_option_terms, debit_terms, credit_terms, vertical_terms, protected_floor, protective_terms,
  protective_put_spread_strikes, underlying_symbol_mismatch, protective_shares, put_legs_required,
  protective_not_debit,
}

pub eq-none : (u : Option UnderlyingLeg) → not (is_some u) ≡ true → u ≡ none
eq-none none h = refl
eq-none (some u) h = cc

pub same_type-eq : (s t : OptionType) → same_type s t ≡ true → s ≡ t
same_type-eq call t h = ground arith
same_type-eq put t h = ground arith

pub one_long_leg-ok :
    (e : InvalidOptionStructure) (legs : List OptionLeg) {leg : OptionLeg}
    → one_long_leg e legs ≡ ok leg
    → (legs ≡ leg ∷ []) × (leg.side ≡ long)
unfolding one_long_leg
one_long_leg-ok e [] h = cc
one_long_leg-ok e (a ∷ []) h = ground arith
one_long_leg-ok e (a ∷ b ∷ r) h = cc

-- The two legs of a spread, in one order or the other.
abbrev pub IsPair : List OptionLeg → OptionLeg → OptionLeg → Type 0
IsPair legs a b = ((legs ≡ a ∷ b ∷ []) ⊎ (legs ≡ b ∷ a ∷ [])) × (a.side ≡ long) × (b.side ≡ short)

by_side-ok :
    (s t : LegSide) (a b : OptionLeg) (e : InvalidOptionStructure) (p : OptionLeg × OptionLeg)
    → a.side ≡ s
    → b.side ≡ t
    → by_side s t a b e ≡ ok p
    → IsPair (a ∷ b ∷ []) p.0 p.1
by_side-ok long short a b e p ea eb h = ground arith
by_side-ok short long a b e p ea eb h = ground arith
by_side-ok long long a b e p ea eb h = cc
by_side-ok short short a b e p ea eb h = cc

pub long_and_short-ok :
    (e f : InvalidOptionStructure) (legs : List OptionLeg) {p : OptionLeg × OptionLeg}
    → long_and_short e f legs ≡ ok p
    → IsPair legs p.0 p.1
unfolding long_and_short
long_and_short-ok e f [] h = cc
long_and_short-ok e f (a ∷ []) h = cc
long_and_short-ok e f (a ∷ b ∷ []) {p} h = by_side-ok a.side b.side a b f p refl refl h
long_and_short-ok e f (a ∷ b ∷ c ∷ r) h = cc

abbrev pub long_terms : OptionType → Decimal → Decimal → ℤ → Terms
long_terms call k e n = terms (e *ℤ n) none (k +ℤ e)
long_terms put k e n = terms (e *ℤ n) (some (max ((k -ℤ e) *ℤ n) (pos 0))) (k -ℤ e)

pub long_option_terms-ok :
    (wanted : OptionType) (legs : List OptionLeg) (u : Option UnderlyingLeg) (premium scale : ℤ)
    {t : Terms}
    → long_option_terms wanted legs u premium scale ≡ ok t
    → (leg : OptionLeg) × (legs ≡ leg ∷ [])
      × (leg.side ≡ long)
      × (leg.contract.option_type ≡ wanted)
      × (u ≡ none)
      × (pos 0 <ℤ premium)
      × (t ≡ long_terms wanted leg.contract.strike premium scale)
unfolding long_option_terms one_long_leg
long_option_terms-ok wanted [] u premium scale h = cc
long_option_terms-ok wanted (a ∷ []) u premium scale h =
    (a, refl, ground arith, ground arith, ground arith, ground arith, ground arith)
long_option_terms-ok wanted (a ∷ b ∷ r) u premium scale h = cc

pub all-pair :
    (P : OptionLeg → Bool) (legs : List OptionLeg) (a b : OptionLeg)
    → IsPair legs a b
    → all P legs ≡ true
    → (P a ≡ true) × (P b ≡ true)
all-pair P legs a b (inl e, _, _) h = let h' : all P (a ∷ b ∷ []) ≡ true = rw e at h in ground arith
all-pair P legs a b (inr e, _, _) h = let h' : all P (b ∷ a ∷ []) ≡ true = rw e at h in ground arith

-- The strikes of a spread of calls or of puts that costs, or that earns, a premium.
abbrev pub Debit : OptionType → Decimal → Decimal → Type 0
Debit call long_strike short_strike = long_strike <ℤ short_strike
Debit put long_strike short_strike = short_strike <ℤ long_strike

abbrev pub Credit : OptionType → Decimal → Decimal → Type 0
Credit wanted long_strike short_strike = Debit wanted short_strike long_strike

abbrev pub spread_terms : Bool → OptionType → Decimal → Decimal → Decimal → ℤ → Terms
spread_terms true wanted long_strike short_strike premium n =
    terms (premium *ℤ n) (some ((abs (long_strike -ℤ short_strike) -ℤ premium) *ℤ n))
      (elim wanted [ call ↦ long_strike +ℤ premium | put ↦ long_strike -ℤ premium ])
spread_terms false wanted long_strike short_strike premium n =
    terms ((abs (long_strike -ℤ short_strike) -ℤ neg premium) *ℤ n) (some (neg premium *ℤ n))
      (elim wanted [ call ↦ short_strike +ℤ neg premium | put ↦ short_strike -ℤ neg premium ])

abbrev pub spread_premium : Bool → Decimal → Decimal
spread_premium true premium = premium
spread_premium false premium = neg premium

abbrev pub Ordered : Bool → OptionType → Decimal → Decimal → Type 0
Ordered true = Debit
Ordered false = Credit

-- The facts that a spread's branch has established.
pub record IsSpread (is_debit : Bool) (wanted : OptionType)
    (long_strike short_strike premium : Decimal) : Type 0 where
  pub strikes : Ordered is_debit wanted long_strike short_strike
  pub positive : pos 0 <ℤ spread_premium is_debit premium
  pub below_width : spread_premium is_debit premium <ℤ abs (long_strike -ℤ short_strike)

debit_terms-ok :
    (wanted : OptionType) (a b premium n : ℤ) {t : Terms}
    → debit_terms wanted a b (abs (a -ℤ b)) premium n ≡ ok t
    → IsSpread true wanted a b premium × (t ≡ spread_terms true wanted a b premium n)
unfolding debit_terms
debit_terms-ok call a b premium n h = (ground arith, ground arith)
debit_terms-ok put a b premium n h = (ground arith, ground arith)

credit_terms-ok :
    (wanted : OptionType) (a b premium n : ℤ) {t : Terms}
    → credit_terms wanted a b (abs (a -ℤ b)) premium n ≡ ok t
    → IsSpread false wanted a b premium × (t ≡ spread_terms false wanted a b premium n)
unfolding credit_terms
credit_terms-ok call a b premium n h = (ground arith, ground arith)
credit_terms-ok put a b premium n h = (ground arith, ground arith)

spread_terms-ok :
    (is_debit : Bool) (wanted : OptionType) (a b premium n : ℤ) {t : Terms}
    → (if is_debit
        then debit_terms wanted a b (abs (a -ℤ b)) premium n
        else credit_terms wanted a b (abs (a -ℤ b)) premium n)
      ≡ ok t
    → IsSpread is_debit wanted a b premium × (t ≡ spread_terms is_debit wanted a b premium n)
spread_terms-ok true wanted a b premium n h = debit_terms-ok wanted a b premium n h
spread_terms-ok false wanted a b premium n h = credit_terms-ok wanted a b premium n h

pub vertical_terms-ok :
    (is_debit : Bool) (wanted : OptionType) (legs : List OptionLeg) (u : Option UnderlyingLeg)
    (premium n : ℤ) {t : Terms}
    → vertical_terms is_debit wanted legs u premium n ≡ ok t
    → (a b : OptionLeg) × IsPair legs a b
      × (a.contract.option_type ≡ wanted)
      × (b.contract.option_type ≡ wanted)
      × (u ≡ none)
      × IsSpread is_debit wanted a.contract.strike b.contract.strike premium
      × (t ≡ spread_terms is_debit wanted a.contract.strike b.contract.strike premium n)
unfolding vertical_terms
vertical_terms-ok is_debit wanted legs u premium n h =
    let (p, found, after_pair) = bind-ok (long_and_short _ _ legs) _ h in
    let (no_shares, after_shares) = require-ok _ _ _ after_pair in
    let (types, after_types) = require-ok _ _ _ after_shares in
    let (_, branch) = require-ok _ _ _ after_types in
    let pair = long_and_short-ok _ _ legs found in
    let typed = all-pair (λ leg. same_type wanted leg.contract.option_type) legs _ _ pair types in
    let (spread, shape) = spread_terms-ok is_debit wanted _ _ premium n branch in
    (
      p.0,
      p.1,
      pair,
      sym (same_type-eq wanted _ typed.0),
      sym (same_type-eq wanted _ typed.1),
      eq-none u no_shares,
      spread,
      shape,
    )

-- What the puts of a protective structure leave of its value, and on which legs that rests.
abbrev pub IsFloor : Bool → List OptionLeg → Decimal → Type 0
IsFloor false legs floor =
    (a : OptionLeg) × (legs ≡ a ∷ []) × (a.side ≡ long) × (floor ≡ a.contract.strike)
IsFloor true legs floor =
    (a : OptionLeg) × (b : OptionLeg) × IsPair legs a b
    × (b.contract.strike <ℤ a.contract.strike)
    × (floor ≡ a.contract.strike -ℤ b.contract.strike)

protected_floor-ok :
    (is_spread : Bool) (legs : List OptionLeg) {floor : Decimal}
    → protected_floor is_spread legs ≡ ok floor
    → IsFloor is_spread legs floor
unfolding protected_floor
protected_floor-ok false legs h =
    let (a, found, rest) = bind-ok (one_long_leg _ legs) _ h in
    let (shape, side) = one_long_leg-ok _ legs found in (a, shape, side, ground arith)
protected_floor-ok true legs h =
    let (p, found, after_pair) = bind-ok (long_and_short _ _ legs) _ h in
    let lower = p.1.contract.strike in
    let upper = p.0.contract.strike in
    let (above, rest) =
      require-ok (ltb_ℤ lower upper) protective_put_spread_strikes (ok (upper -ℤ lower))
        after_pair in
    (p.0, p.1, long_and_short-ok _ _ legs found, ground arith, ground arith)

pub protective_terms-ok :
    (is_spread : Bool) (symbol : String) (m q : ℕ) (legs : List OptionLeg)
    (u : Option UnderlyingLeg) (premium n : ℤ) {t : Terms}
    → protective_terms is_spread symbol m q legs u premium n ≡ ok t
    → (shares : UnderlyingLeg) × (floor : Decimal) × (u ≡ some shares)
      × (shares.shares ≡ m * q)
      × (all (λ leg. same_type put leg.contract.option_type) legs ≡ true)
      × (pos 0 <ℤ premium)
      × IsFloor is_spread legs floor
      × (t
          ≡ terms
              (max ((shares.entry_price +ℤ premium -ℤ floor) *ℤ n) (pos 0))
              none
              (shares.entry_price +ℤ premium))
unfolding protective_terms
protective_terms-ok is_spread symbol m q legs none premium n h = cc
protective_terms-ok is_spread symbol m q legs (some shares) premium n h =
    let (_, after_symbol) =
      require-ok (str_eq shares.symbol symbol) underlying_symbol_mismatch _ h in
    let (count, after_count) =
      require-ok (shares.shares == m * q) protective_shares _ after_symbol in
    let (puts, after_puts) =
      require-ok (all (λ leg. same_type put leg.contract.option_type) legs) put_legs_required _
        after_count in
    let (debit, rest) = require-ok (ltb_ℤ zero_decimal premium) protective_not_debit _ after_puts in
    let (floor, found, last) = bind-ok (protected_floor is_spread legs) _ rest in
    (
      shares,
      floor,
      refl,
      ground arith,
      puts,
      ground arith,
      protected_floor-ok is_spread legs found,
      ground arith,
    )
