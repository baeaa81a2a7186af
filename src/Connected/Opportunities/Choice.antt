-- ===== src/Connected/Opportunities/Choice.antt =====
-- The choice of the legs in packages/connected/opportunities.py among two contracts or more, by its
-- indices.
use alpha_desk.Base.{
  ℕ, zero, suc, ◌+◌, ◌-◌, ◌≤◌, ◌<◌, ◌≡◌, refl, List, [], ◌∷◌, length, ◌==◌, ==→eq, Bool-cases, inl,
  inr, arith,
}
use alpha_desk.Base.Integers.{◌-ℤ◌, ltb_ℤ, abs}
use alpha_desk.Base.Results.{ok, ◌>>=◌}
use alpha_desk.Domain.Options.{Decimal, OptionType, call, put, OptionContract}
use alpha_desk.Connected.Selection.{
  nearest_from, nearest, item_at, call_index, put_index, choose_legs,
}

item_at_found :
    (n : ℕ) (cs : List OptionContract)
    → n < length cs
    → (c : OptionContract) × (item_at n cs ≡ ok c)
item_at_found n [] h = absurd (omega arith)
item_at_found zero (c ∷ cs) h = (c, refl)
item_at_found (suc n) (c ∷ cs) h = item_at_found n cs (omega arith)

nearest_from_below :
    (price : Decimal) (best : ℕ) (least : Decimal) (i : ℕ) (cs : List OptionContract)
    → best < i
    → nearest_from price best least i cs < i + length cs
nearest_from_below price best least i [] h = omega arith
nearest_from_below price best least i (c ∷ cs) h =
    let distance = abs (c.strike -ℤ price) in
    let here = nearest_from_below price i distance (suc i) cs (omega arith) in
    let before = nearest_from_below price best least (suc i) cs (omega arith) in
    elim (Bool-cases (ltb_ℤ distance least)) [
      | inl nearer ↦ rw nearer (omega arith)
      | inr farther ↦ rw farther (omega arith)
    ]

nearest_below :
    (price : Decimal) (cs : List OptionContract) → 2 ≤ length cs → nearest price cs < length cs
nearest_below price [] h = omega arith
nearest_below price (c ∷ cs) h =
    let below = nearest_from_below price 0 (abs (c.strike -ℤ price)) 1 cs (omega arith) in
    omega arith

call_index_below :
    (price : Decimal) (cs : List OptionContract)
    → 2 ≤ length cs
    → suc (call_index price cs) < length cs
call_index_below price cs h =
    let below = nearest_below price cs h in
    elim (Bool-cases (nearest price cs == length cs - 1)) [
      | inl last ↦ let at_end = ==→eq _ _ last in rw last (omega arith)
      | inr inner ↦ ground arith
    ]

put_index_below :
    (price : Decimal) (cs : List OptionContract) → 2 ≤ length cs → put_index price cs < length cs
put_index_below price cs h =
    let below = nearest_below price cs h in
    elim (Bool-cases (nearest price cs == 0)) [
      | inl first ↦ rw first (omega arith)
      | inr inner ↦ rw inner (omega arith)
    ]

pair_found :
    (m n : ℕ) (cs : List OptionContract)
    → m < length cs
    → n < length cs
    → (pair : OptionContract × OptionContract) × ((item_at m cs >>= λ bought.
          item_at n cs >>= λ sold. ok (bought, sold))
        ≡ ok pair)
pair_found m n cs hm hn =
    let (bought, there) = item_at_found m cs hm in
    let (sold, beside) = item_at_found n cs hn in ((bought, sold), rw (there, beside) refl)

-- Where two contracts were selected, two neighbours are chosen.
pub choose_legs_found :
    (type : OptionType) (price : Decimal) (cs : List OptionContract)
    → 2 ≤ length cs
    → (pair : OptionContract × OptionContract) × (choose_legs type price cs ≡ ok pair)
unfolding choose_legs
choose_legs_found call price cs h =
    let below = call_index_below price cs h in
    pair_found (call_index price cs) (suc (call_index price cs)) cs (omega arith) below
choose_legs_found put price cs h =
    let below = put_index_below price cs h in
    pair_found (put_index price cs) (put_index price cs - 1) cs below (omega arith)
