-- ===== src/Connected/Opportunities/Legs.antt =====
-- The contracts among which packages/connected/opportunities.py chooses: from the chain through the
-- liquidity filter and the selection to the legs.
use alpha_desk.Base.{
  ℕ, zero, suc, ◌-◌, ◌≡◌, refl, subst, Bool, true, false, String, List, [], ◌∷◌, keep, ◌==◌,
  if◌then◌else◌, Bool-cases, inl, inr, All,
}
use alpha_desk.Base.Results.{Result, ok, err, ◌>>=◌, bind-ok, ok-injective}
use alpha_desk.Base.Sorting.{insert_by, order_by}
use alpha_desk.Domain.Time.{Datetime, Date}
use alpha_desk.Domain.Options.{Decimal, OptionType, call, put, OptionContract, EligibilityResult}
use alpha_desk.Options.Engine.{same_type}
use alpha_desk.Options.Liquidity.{NaiveTime, evaluate_contract}
use alpha_desk.Options.Liquidity.Eligible.{IsLiquid, is_eligible, evaluate_contract_iff}
use alpha_desk.Connected.Selection.{item_at, call_index, put_index, choose_legs, select, strike_leq}
use alpha_desk.Connected.Opportunities.{eligible_of, policy_for, unit}

module _ (P : OptionContract → Type 0) where
  All-keep : (p : OptionContract → Bool) (cs : List OptionContract) → All P cs → All P (keep p cs)
  All-keep p [] h = tt
  All-keep p (c ∷ cs) (first, rest) = elim (Bool-cases (p c)) [
    | inl kept ↦ rw kept (first, All-keep p cs rest)
    | inr dropped ↦ rw dropped (All-keep p cs rest)
  ]

  All-insert_by :
      (leq : OptionContract → OptionContract → Bool) (c : OptionContract) (cs : List OptionContract)
      → P c
      → All P cs
      → All P (insert_by leq c cs)
  All-insert_by leq c [] first h = (first, tt)
  All-insert_by leq c (d ∷ ds) first (next, rest) = elim (Bool-cases (leq c d)) [
    | inl below ↦ rw below (first, (next, rest))
    | inr above ↦ rw above (next, All-insert_by leq c ds first rest)
  ]

  All-order_by :
      (leq : OptionContract → OptionContract → Bool) (cs : List OptionContract)
      → All P cs
      → All P (order_by leq cs)
  All-order_by leq [] h = tt
  All-order_by leq (c ∷ cs) (first, rest) =
      All-insert_by leq c (order_by leq cs) first (All-order_by leq cs rest)

  pub All-select : (date : Date) (cs : List OptionContract) → All P cs → All P (select date cs)
  All-select date cs h = All-order_by strike_leq _ (All-keep (λ c. c.expiration == date) cs h)

  item_at-All :
      (n : ℕ) (cs : List OptionContract) {c : OptionContract} → All P cs → item_at n cs ≡ ok c → P c
  item_at-All n [] h e = cc
  item_at-All zero (c ∷ cs) (first, _) e = subst P (ok-injective _ _ e) first
  item_at-All (suc n) (c ∷ cs) (_, rest) e = item_at-All n cs rest e

  pair-All :
      (m n : ℕ) (cs : List OptionContract) {pair : OptionContract × OptionContract}
      → All P cs
      → (item_at m cs >>= λ bought. item_at n cs >>= λ sold. ok (bought, sold)) ≡ ok pair
      → P pair.0 × P pair.1
  pair-All m n cs {pair} h e =
      let (bought, there, rest) = bind-ok (item_at m cs) _ e in
      let (sold, beside, last) = bind-ok (item_at n cs) (λ sold. ok (bought, sold)) rest in
      let same : (bought, sold) ≡ pair = ok-injective _ _ last in
      subst (λ p. P p.0 × P p.1) same (item_at-All m cs h there, item_at-All n cs h beside)

  -- Both contracts are of the list.
  pub choose_legs-All :
      (type : OptionType) (price : Decimal) (cs : List OptionContract)
      {pair : OptionContract × OptionContract}
      → All P cs
      → choose_legs type price cs ≡ ok pair
      → P pair.0 × P pair.1
  unfolding choose_legs
  choose_legs-All call price cs h e =
      pair-All (call_index price cs) (suc (call_index price cs)) cs h e
  choose_legs-All put price cs h e = pair-All (put_index price cs) (put_index price cs - 1) cs h e

-- What is eligible was let through by the filter, and is of the chain.
module _ (step : ℕ) (symbol : String) (price : Decimal) (now : Datetime)
    (Q : OptionContract → Type 0) where
  abbrev pub Chosen : OptionContract → Type 0
  Chosen c = IsLiquid (unit step) c price (policy_for step symbol) now × Q c

  -- One round of the loop, from the test of the type and the answers for the contract and the rest.
  added :
      (c : OptionContract) (wanted : Bool) (answer : Result NaiveTime EligibilityResult)
      (rest : Result NaiveTime (List OptionContract)) {eligible : List OptionContract}
      → Q c
      → (is_eligible answer ≡ true → IsLiquid (unit step) c price (policy_for step symbol) now)
      → ((others : List OptionContract) → rest ≡ ok others → All Chosen others)
      → (if wanted
          then (answer >>= λ result.
              rest >>= λ others. ok (if result.eligible then c ∷ others else others))
          else rest)
        ≡ ok eligible
      → All Chosen eligible
  added c false answer rest first liquid later e = later _ e
  added c true (err failure) rest first liquid later e = cc
  added c true (ok result) (err failure) first liquid later e = cc
  added c true (ok result) (ok others) {eligible} first liquid later e =
      subst (All Chosen) (ok-injective _ eligible e) (elim (Bool-cases result.eligible) [
        | inl passed ↦ rw passed ((liquid passed, first), later others refl)
        | inr failed ↦ rw failed (later others refl)
      ])

  pub eligible_of-All :
      (type : OptionType) (cs : List OptionContract) {eligible : List OptionContract}
      → All Q cs
      → eligible_of step type symbol price now cs ≡ ok eligible
      → All Chosen eligible
  unfolding eligible_of
  eligible_of-All type [] h e = subst (All Chosen) (ok-injective _ _ e) tt
  eligible_of-All type (c ∷ cs) (first, rest) e =
      added c (same_type c.option_type type)
        (evaluate_contract (unit step) c price (policy_for step symbol) now)
        (eligible_of step type symbol price now cs) first
        (evaluate_contract_iff (unit step) c price (policy_for step symbol) now).0
        (λ others found. eligible_of-All type cs rest found) e
