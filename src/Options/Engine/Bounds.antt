-- ===== src/Options/Engine/Bounds.antt =====
-- Each branch of `build_structure` (packages/options/engine.py) bounds what its legs can pay at
-- expiration: first for a share, then times the multiplier and the quantity.
use alpha_desk.Base.{
  ℕ, ◌*◌, ◌≡◌, refl, sym, inl, inr, Bool, true, false, Option, none, some, List, [], ◌∷◌, arith,
  All, String, all,
}
use alpha_desk.Base.Integers.{
  ℤ, pos, ◌+ℤ◌, ◌-ℤ◌, ◌*ℤ◌, ◌≤ℤ◌, neg, abs, max, int_laws, max_sub_zero, abs_sub, max_zero, *ℤ_mono,
  *ℤ_neg, *ℤ_add,
}
use alpha_desk.Base.Results.{ok}
use alpha_desk.Domain.Options.{
  Decimal, OptionType, call, put, LegSide, long, short, OptionLeg, UnderlyingLeg, LegIsValid,
}
use alpha_desk.Options.Engine.{
  intrinsic, premium_of, Terms, long_option_terms, vertical_terms, protective_terms, add_underlying,
  same_type,
}
use alpha_desk.Options.Engine.Share.{
  leg_share, share_of, shares_of, leg_cost, cost_of, IsPlain, premium_of-cost,
}
use alpha_desk.Options.Engine.Inversion.{
  IsPair, Debit, Credit, Ordered, spread_terms, IsFloor, long_terms, long_option_terms-ok,
  vertical_terms-ok, protective_terms-ok, all-pair, same_type-eq,
}

-- No more than the bound, if there is one.
abbrev pub AtMost : Decimal → Option Decimal → Type 0
AtMost x none = Unit
AtMost x (some bound) = x ≤ℤ bound

-- The payoff `x` lies within what the terms promise.
pub record IsBounded (t : Terms) (x : Decimal) : Type 0 where
  pub loss : neg t.max_loss ≤ℤ x
  pub profit : AtMost x t.max_profit

lower_scaled : (loss x : ℤ) (n : ℕ) → neg loss ≤ℤ x → neg (loss *ℤ pos n) ≤ℤ x *ℤ pos n
lower_scaled loss x n h = rw (← *ℤ_neg loss (pos n)) (*ℤ_mono (neg loss) x n h)

long_leg :
    (side : LegSide) (kind wanted : OptionType) (k e p : ℤ)
    → side ≡ long
    → kind ≡ wanted
    → (leg_share side kind k e p ≡ intrinsic wanted k p -ℤ e) × (leg_cost side e ≡ e)
long_leg side kind wanted k e p s t = rw (s, t) (refl, refl)

short_leg :
    (side : LegSide) (kind wanted : OptionType) (k e p : ℤ)
    → side ≡ short
    → kind ≡ wanted
    → (leg_share side kind k e p ≡ e -ℤ intrinsic wanted k p) × (leg_cost side e ≡ neg e)
short_leg side kind wanted k e p s t = rw (s, t) (refl, refl)

pair_sum :
    (legs : List OptionLeg) (a b : OptionLeg) (p : ℤ)
    → IsPair legs a b
    → (shares_of legs p ≡ share_of a p +ℤ share_of b p)
      × (cost_of legs ≡ leg_cost a.side a.entry_price +ℤ leg_cost b.side b.entry_price)
pair_sum legs a b p (inl e, _, _) = rw e (omega int_laws, omega int_laws)
pair_sum legs a b p (inr e, _, _) = rw e (omega int_laws, omega int_laws)

-- A spread pays the difference of its intrinsic values, less its premium.
pub pair_share :
    (legs : List OptionLeg) (a b : OptionLeg) (wanted : OptionType) (p : ℤ)
    → IsPair legs a b
    → a.contract.option_type ≡ wanted
    → b.contract.option_type ≡ wanted
    → shares_of legs p
      ≡ intrinsic wanted a.contract.strike p -ℤ intrinsic wanted b.contract.strike p -ℤ cost_of legs
pair_share legs a b wanted p (order, sa, sb) ta tb =
    let (total, cost) = pair_sum legs a b p (order, sa, sb) in
    let (share_a, cost_a) = long_leg a.side _ wanted a.contract.strike a.entry_price p sa ta in
    let (share_b, cost_b) = short_leg b.side _ wanted b.contract.strike b.entry_price p sb tb in
    rw (total, cost, share_a, share_b, cost_a, cost_b) (omega int_laws)

debit_diff :
    (wanted : OptionType) (a b p : ℤ)
    → Debit wanted a b
    → (pos 0 ≤ℤ intrinsic wanted a p -ℤ intrinsic wanted b p)
      × (intrinsic wanted a p -ℤ intrinsic wanted b p ≤ℤ abs (a -ℤ b))
debit_diff call a b p h =
    rw (max_sub_zero p a, max_sub_zero p b, abs_sub a b) (omega int_laws, omega int_laws)
debit_diff put a b p h =
    rw (max_sub_zero a p, max_sub_zero b p, abs_sub a b) (omega int_laws, omega int_laws)

credit_diff :
    (wanted : OptionType) (a b p : ℤ)
    → Credit wanted a b
    → (neg (abs (a -ℤ b)) ≤ℤ intrinsic wanted a p -ℤ intrinsic wanted b p)
      × (intrinsic wanted a p -ℤ intrinsic wanted b p ≤ℤ pos 0)
credit_diff call a b p h =
    rw (max_sub_zero p a, max_sub_zero p b, abs_sub a b) (omega int_laws, omega int_laws)
credit_diff put a b p h =
    rw (max_sub_zero a p, max_sub_zero b p, abs_sub a b) (omega int_laws, omega int_laws)

spread-IsBounded :
    (is_debit : Bool) (wanted : OptionType) (a b premium p : ℤ) (n : ℕ)
    → Ordered is_debit wanted a b
    → IsBounded
        (spread_terms is_debit wanted a b premium (pos n))
        ((intrinsic wanted a p -ℤ intrinsic wanted b p -ℤ premium) *ℤ pos n)
spread-IsBounded true wanted a b premium p n h =
    let (low, high) = debit_diff wanted a b p h in
    record {
      loss = lower_scaled premium _ n (omega int_laws);
      profit = *ℤ_mono _ (abs (a -ℤ b) -ℤ premium) n (omega int_laws);
    }
spread-IsBounded false wanted a b premium p n h =
    let (low, high) = credit_diff wanted a b p h in
    record {
      loss = lower_scaled (abs (a -ℤ b) -ℤ neg premium) _ n (omega int_laws);
      profit = *ℤ_mono _ (neg premium) n (omega int_laws);
    }

pub vertical-IsBounded :
    (is_debit : Bool) (wanted : OptionType) (legs : List OptionLeg) (u : Option UnderlyingLeg)
    (m n : ℕ) (p : ℤ) {t : Terms}
    → All (IsPlain m) legs
    → vertical_terms is_debit wanted legs u (premium_of legs) (pos n) ≡ ok t
    → (u ≡ none) × IsBounded t (shares_of legs p *ℤ pos n)
vertical-IsBounded is_debit wanted legs u m n p plain h =
    let (a, b, pair, ta, tb, no_shares, spread, shape) =
      vertical_terms-ok is_debit wanted legs u _ _ h in
    (
      no_shares,
      rw (shape, premium_of-cost legs m plain, pair_share legs a b wanted p pair ta tb)
          (spread-IsBounded is_debit wanted _ _ (cost_of legs) p n spread.strikes),
    )

single_share :
    (legs : List OptionLeg) (a : OptionLeg) (wanted : OptionType) (p : ℤ)
    → legs ≡ a ∷ []
    → a.side ≡ long
    → a.contract.option_type ≡ wanted
    → (shares_of legs p ≡ intrinsic wanted a.contract.strike p -ℤ a.entry_price)
      × (cost_of legs ≡ a.entry_price)
single_share legs a wanted p e side kind =
    let (share, cost) = long_leg a.side _ wanted a.contract.strike a.entry_price p side kind in
    rw (e, share, cost) (omega int_laws, omega int_laws)

intrinsic_bounds :
    (wanted : OptionType) (k p : ℤ)
    → pos 0 ≤ℤ k
    → pos 0 ≤ℤ p
    → (pos 0 ≤ℤ intrinsic wanted k p) × (intrinsic put k p ≤ℤ k) × (k ≤ℤ intrinsic put k p +ℤ p)
intrinsic_bounds call k p hk hp =
    rw (max_sub_zero p k, max_sub_zero k p) (omega arith, omega arith, omega int_laws)
intrinsic_bounds put k p hk hp = rw (max_sub_zero k p) (omega arith, omega arith, omega int_laws)

le-max : (x : ℤ) → (x ≤ℤ max x (pos 0)) × (neg (max x (pos 0)) ≤ℤ neg x)
le-max x = rw (max_zero x) (omega arith, omega int_laws)

long-IsBounded :
    (wanted : OptionType) (k e p : ℤ) (n : ℕ)
    → pos 0 ≤ℤ k
    → pos 0 ≤ℤ p
    → IsBounded (long_terms wanted k e (pos n)) ((intrinsic wanted k p -ℤ e) *ℤ pos n)
long-IsBounded call k e p n hk hp =
    let (low, _, _) = intrinsic_bounds call k p hk hp in
    record { loss = lower_scaled e _ n (omega int_laws); profit = tt }
long-IsBounded put k e p n hk hp =
    let (low, high, _) = intrinsic_bounds put k p hk hp in
    let scaled = *ℤ_mono (intrinsic put k p -ℤ e) (k -ℤ e) n (omega int_laws) in
    let (above, _) = le-max ((k -ℤ e) *ℤ pos n) in
    record { loss = lower_scaled e _ n (omega int_laws); profit = omega arith }

pub long_option-IsBounded :
    (wanted : OptionType) (legs : List OptionLeg) (u : Option UnderlyingLeg) (m n : ℕ) (p : ℤ)
    {t : Terms}
    → All (IsPlain m) legs
    → All LegIsValid legs
    → pos 0 ≤ℤ p
    → long_option_terms wanted legs u (premium_of legs) (pos n) ≡ ok t
    → (u ≡ none) × IsBounded t (shares_of legs p *ℤ pos n)
long_option-IsBounded wanted legs u m n p plain valid hp h =
    let (a, one, side, kind, no_shares, _, shape) = long_option_terms-ok wanted legs u _ _ h in
    let valid' = rw one at valid in
    let (share, cost) = single_share legs a wanted p one side kind in
    (
      no_shares,
      rw (shape, premium_of-cost legs m plain, share, cost)
          (long-IsBounded wanted _ a.entry_price p n (omega arith) hp),
    )

All-pair :
    (P : OptionLeg → Type 0) (legs : List OptionLeg) (a b : OptionLeg)
    → IsPair legs a b
    → All P legs
    → P a × P b
All-pair P legs a b (inl e, _, _) h = let h' = rw e at h in (h'.0, h'.1.0)
All-pair P legs a b (inr e, _, _) h = let h' = rw e at h in (h'.1.0, h'.0)

spread_floor :
    (ka kb c p : ℤ)
    → pos 0 ≤ℤ kb
    → pos 0 ≤ℤ p
    → ka -ℤ kb ≤ℤ intrinsic put ka p -ℤ intrinsic put kb p -ℤ c +ℤ c +ℤ p
spread_floor ka kb c p hk hp = rw (max_sub_zero ka p, max_sub_zero kb p) (omega int_laws)

below_floor :
    (is_spread : Bool) (legs : List OptionLeg) (floor p : ℤ)
    → all (λ leg. same_type put leg.contract.option_type) legs ≡ true
    → All LegIsValid legs
    → pos 0 ≤ℤ p
    → IsFloor is_spread legs floor
    → floor ≤ℤ shares_of legs p +ℤ cost_of legs +ℤ p
below_floor false legs floor p puts valid hp (a, one, side, f) =
    let valid' = rw one at valid in
    let puts' = rw one at puts in
    let (share, cost) =
      single_share legs a put p one side (sym (same_type-eq put _ (ground arith))) in
    let (_, _, above) = intrinsic_bounds put a.contract.strike p (omega arith) hp in
    rw (f, share, cost) (omega int_laws)
below_floor true legs floor p puts valid hp (a, b, pair, order, f) =
    let (put_a, put_b) =
      all-pair (λ leg. same_type put leg.contract.option_type) legs a b pair puts in
    let share =
      pair_share legs a b put p pair (sym (same_type-eq put _ put_a))
        (sym (same_type-eq put _ put_b)) in
    let (_, valid_b) = All-pair LegIsValid legs a b pair valid in
    rw (f, share) (spread_floor _ _ (cost_of legs) p (omega arith) hp)

protected_share :
    (s p e c floor : ℤ) (n : ℕ)
    → floor ≤ℤ s +ℤ c +ℤ p
    → neg (max ((e +ℤ c -ℤ floor) *ℤ pos n) (pos 0)) ≤ℤ s *ℤ pos n +ℤ (p -ℤ e) *ℤ pos n
protected_share s p e c floor n h =
    let (_, clamped) = le-max ((e +ℤ c -ℤ floor) *ℤ pos n) in
    let scaled = lower_scaled (e +ℤ c -ℤ floor) (s +ℤ (p -ℤ e)) n (omega int_laws) in
    let scaled' = rw (*ℤ_add s (p -ℤ e) (pos n)) at scaled in omega arith

-- With the protected shares the floor holds, and there is no bound above.
pub protective-IsBounded :
    (is_spread : Bool) (symbol : String) (m q : ℕ) (legs : List OptionLeg)
    (u : Option UnderlyingLeg) (p : ℤ) {t : Terms}
    → All (IsPlain m) legs
    → All LegIsValid legs
    → pos 0 ≤ℤ p
    → protective_terms is_spread symbol m q legs u (premium_of legs) (pos (m * q)) ≡ ok t
    → IsBounded t (add_underlying u p (shares_of legs p *ℤ pos (m * q)))
unfolding add_underlying
protective-IsBounded is_spread symbol m q legs u p plain valid hp h =
    let (shares, floor, given, count, puts, _, floor_ok, shape) =
      protective_terms-ok is_spread symbol m q legs u _ _ h in
    let low = below_floor is_spread legs floor p puts valid hp floor_ok in
    rw (shape, given, count, premium_of-cost legs m plain)
      (record {
        loss =
            protected_share (shares_of legs p) p shares.entry_price (cost_of legs) floor (m * q)
              low;
        profit = tt;
      })
