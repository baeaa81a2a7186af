-- ===== src/Options/Engine/Share.antt =====
-- The payoff of packages/options/engine.py for one share: legs that have passed `_validate_common`
-- pay the sum of what each pays for a share, times the multiplier and the quantity.
use alpha_desk.Base.{ℕ, ◌*◌, ◌≡◌, refl, ◌∙◌, String, List, [], ◌∷◌, arith, All, ap}
use alpha_desk.Base.Integers.{
  ℤ, pos, ◌+ℤ◌, ◌-ℤ◌, ◌*ℤ◌, neg, int_laws, *ℤ_assoc, *ℤ_add, *ℤ_sub, *ℤ_neg, *ℤ_one,
}
use alpha_desk.Base.Results.{ok}
use alpha_desk.Domain.Options.{Decimal, OptionType, LegSide, long, short, sign, OptionLeg}
use alpha_desk.Options.Engine.{intrinsic, payoff_from, premium_of, validate_legs, validate_common}

-- What one share of a leg pays, net of its price.
abbrev pub leg_share : LegSide → OptionType → Decimal → Decimal → Decimal → Decimal
leg_share long kind strike entry price = intrinsic kind strike price -ℤ entry
leg_share short kind strike entry price = entry -ℤ intrinsic kind strike price

abbrev pub share_of : OptionLeg → Decimal → Decimal
share_of leg price =
    leg_share leg.side leg.contract.option_type leg.contract.strike leg.entry_price price

abbrev pub shares_of : List OptionLeg → Decimal → Decimal
shares_of [] price = pos 0
shares_of (leg ∷ legs) price = share_of leg price +ℤ shares_of legs price

abbrev pub leg_cost : LegSide → Decimal → Decimal
leg_cost long entry = entry
leg_cost short entry = neg entry

abbrev pub cost_of : List OptionLeg → Decimal
cost_of [] = pos 0
cost_of (leg ∷ legs) = leg_cost leg.side leg.entry_price +ℤ cost_of legs

-- A leg that `_validate_common` accepts beside the multiplier `m`.
pub record IsPlain (m : ℕ) (leg : OptionLeg) : Type 0 where
  pub ratio_one : leg.ratio ≡ 1
  pub multiplier_eq : leg.contract.multiplier ≡ m

sign_mul : (side : LegSide) (x : ℤ) → sign side *ℤ x ≡ leg_cost side x
sign_mul long x = omega int_laws
sign_mul short x = omega int_laws

pos_mul : (m q : ℕ) → pos m *ℤ pos q ≡ pos (m * q)
pos_mul m q = omega int_laws

scale_mul : (x : ℤ) (r m q : ℕ) → r ≡ 1 → x *ℤ pos r *ℤ pos m *ℤ pos q ≡ x *ℤ pos (m * q)
scale_mul x r m q e = rw (e, *ℤ_one, *ℤ_assoc, pos_mul)

gain_sub_cost :
    (side : LegSide) (kind : OptionType) (strike entry price : ℤ) (n : ℤ)
    → leg_cost side (intrinsic kind strike price) *ℤ n -ℤ leg_cost side entry *ℤ n
      ≡ leg_share side kind strike entry price *ℤ n
gain_sub_cost long kind strike entry price n = sym_sub (intrinsic kind strike price) entry n
  where
    sym_sub : (a b c : ℤ) → a *ℤ c -ℤ b *ℤ c ≡ (a -ℤ b) *ℤ c
    sym_sub a b c = rw *ℤ_sub
gain_sub_cost short kind strike entry price n =
    rw (*ℤ_neg (intrinsic kind strike price), *ℤ_neg entry, *ℤ_sub) (omega int_laws)

add_sub : (a b c : ℤ) → a +ℤ b -ℤ c ≡ a +ℤ (b -ℤ c)
add_sub a b c = omega int_laws

step_eq :
    (side : LegSide) (kind : OptionType) (strike entry price acc : ℤ) (r c m q : ℕ)
    → r ≡ 1
    → c ≡ m
    → acc
        +ℤ sign side *ℤ intrinsic kind strike price *ℤ pos r *ℤ pos c *ℤ pos q
        -ℤ sign side *ℤ entry *ℤ pos r *ℤ pos c *ℤ pos q
      ≡ acc +ℤ leg_share side kind strike entry price *ℤ pos (m * q)
step_eq side kind strike entry price acc r c m q e d = rw (
  scale_mul (sign side *ℤ intrinsic kind strike price) r c q e,
  scale_mul (sign side *ℤ entry) r c q e,
  d,
  sign_mul side (intrinsic kind strike price),
  sign_mul side entry,
  add_sub,
  gain_sub_cost side kind strike entry price (pos (m * q)),
)

payoff_step :
    (leg : OptionLeg) (m q : ℕ) (price acc : ℤ)
    → IsPlain m leg
    → acc
        +ℤ sign leg.side
          *ℤ intrinsic leg.contract.option_type leg.contract.strike price
          *ℤ pos leg.ratio
          *ℤ pos leg.contract.multiplier
          *ℤ pos q
        -ℤ sign leg.side *ℤ leg.entry_price *ℤ pos leg.ratio *ℤ pos leg.contract.multiplier *ℤ pos q
      ≡ acc +ℤ share_of leg price *ℤ pos (m * q)
payoff_step leg m q price acc plain =
    step_eq leg.side leg.contract.option_type leg.contract.strike leg.entry_price price acc
      leg.ratio leg.contract.multiplier m q plain.ratio_one plain.multiplier_eq

pub payoff_from-shares :
    (legs : List OptionLeg) (m q : ℕ) (price acc : ℤ)
    → All (IsPlain m) legs
    → payoff_from legs q price acc ≡ acc +ℤ shares_of legs price *ℤ pos (m * q)
unfolding payoff_from
payoff_from-shares [] m q price acc plain = omega int_laws
payoff_from-shares (leg ∷ legs) m q price acc plain =
    ap (payoff_from legs q price) (payoff_step leg m q price acc plain.0)
    ∙ payoff_from-shares legs m q price _ plain.1
    ∙ rw (*ℤ_add (share_of leg price)) (omega int_laws)

pub premium_of-cost :
    (legs : List OptionLeg) (m : ℕ) → All (IsPlain m) legs → premium_of legs ≡ cost_of legs
unfolding premium_of
premium_of-cost [] m plain = refl
premium_of-cost (leg ∷ legs) m plain =
    rw (plain.0.ratio_one, *ℤ_one, sign_mul, premium_of-cost legs m plain.1)

validate_legs-IsPlain :
    (first : OptionLeg) (legs : List OptionLeg)
    → validate_legs first legs ≡ ok tt
    → All (IsPlain first.contract.multiplier) legs
unfolding validate_legs
validate_legs-IsPlain first [] h = tt
validate_legs-IsPlain first (leg ∷ legs) h = ground (arith, validate_legs-IsPlain first legs)

-- Legs that share a contract's terms are plain beside the multiplier that is returned.
pub validate_common-IsPlain :
    (legs : List OptionLeg) {r : String × ℕ} → validate_common legs ≡ ok r → All (IsPlain r.1) legs
unfolding validate_common
validate_common-IsPlain [] h = cc
validate_common-IsPlain (first ∷ legs) h =
    ground (arith, validate_legs-IsPlain first (first ∷ legs))
