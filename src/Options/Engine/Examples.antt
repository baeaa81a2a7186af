-- ===== src/Options/Engine/Examples.antt =====
-- Runs of packages/options/engine.py, and its theorems at concrete structures.
use alpha_desk.Base.{◌≡◌, refl, none, arith, All}
use alpha_desk.Base.Integers.{pos, ◌+ℤ◌, ◌-ℤ◌, ◌*ℤ◌, ◌≤ℤ◌, neg, max}
use alpha_desk.Base.Results.{ok}
use alpha_desk.Domain.Options.{Decimal, bull_call_debit_spread, LegIsValid}
use alpha_desk.Options.Engine.{expiration_payoff, payoff_from, add_underlying}
use alpha_desk.Options.Engine.Safety.{build_structure-bounds_payoff}
use alpha_desk.Samples.{unit, cents, bull_call_legs, bull_call, bull_call_built}

bull_call_legs-valid : All LegIsValid bull_call_legs
bull_call_legs-valid = omega arith

bull_call_at_100 : expiration_payoff bull_call (cents 10_000) ≡ ok (neg (cents 21_000))
unfolding expiration_payoff payoff_from add_underlying ◌+ℤ◌ ◌-ℤ◌ ◌*ℤ◌ max neg
bull_call_at_100 = refl

build_structure-bounds_payoff_example :
    (payoff : Decimal) × (expiration_payoff bull_call (cents 12_300) ≡ ok payoff)
    × (neg (cents 21_000) ≤ℤ payoff)
    × (payoff ≤ℤ cents 29_000)
build_structure-bounds_payoff_example =
    build_structure-bounds_payoff unit bull_call_debit_spread bull_call_legs (pos 1) none
      (cents 12_300) bull_call_legs-valid bull_call_built (omega arith)
