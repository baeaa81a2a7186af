-- ===== src/Connected/Selection.antt =====
-- packages/connected/opportunities.py: the symbol, and the contracts that are bought and sold.
use alpha_desk.Base.{
  ℕ, ◌+◌, ◌-◌, ◌*◌, zero, suc, Bool, not, ◌&&◌, Option, none, some, String, List, [], ◌∷◌, map,
  keep, length, ◌==◌, leb, if◌then◌else◌,
}
use alpha_desk.Base.Integers.{◌-ℤ◌, ltb_ℤ, leb_ℤ, abs}
use alpha_desk.Base.Results.{Result, ok, err, ◌>>=◌}
use alpha_desk.Base.Sorting.{order_by}
use alpha_desk.Base.Texts.{all_chars, has_char, is_empty}
use alpha_desk.Domain.Time.{Datetime, Date, micros_per_second}
use alpha_desk.Domain.Options.{
  Decimal, OptionType, call, put, long, short, StructureType, bull_call_debit_spread,
  bear_put_debit_spread, OptionContract, OptionLeg,
}
use alpha_desk.Domain.Workflow.{Direction, bullish, bearish}
use alpha_desk.Connected.Records.{AnalysisError, index_error}

-- `normalized.isalnum()`
abbrev pub is_alnum : String → Bool
is_alnum s =
    not (is_empty s)
    && all_chars (has_char "0123456789ABCDEFGHIJKLMNOPQRSTUVWXYZabcdefghijklmnopqrstuvwxyz") s

abbrev pub text_length : String → ℕ
text_length String.[] = 0
text_length (String.◌∷◌ _ s) = suc (text_length s)

abbrev pub after_seconds : ℕ → Datetime → Datetime
after_seconds n t = record t { micros = t.micros + n * micros_per_second }

abbrev pub wanted_type : Direction → OptionType
wanted_type bullish = call
wanted_type bearish = put

abbrev pub vertical_type : OptionType → StructureType
vertical_type call = bull_call_debit_spread
vertical_type put = bear_put_debit_spread

-- `expirations[0]` of the sorted expirations; none if there is none.
abbrev pub first {ℓ} : {A : Type ℓ} → List A → Option A
first [] = none
first (x ∷ _) = some x

abbrev pub first_expiration : List OptionContract → Option Date
first_expiration eligible = first (order_by leb (map (λ c. c.expiration) eligible))

abbrev pub strike_leq : OptionContract → OptionContract → Bool
strike_leq a b = leb_ℤ a.strike b.strike

abbrev pub select : Date → List OptionContract → List OptionContract
select date eligible = order_by strike_leq (keep (λ c. c.expiration == date) eligible)

-- `min(range(len(selected)), key=...)`: the first index with the least distance, where `best` is
-- the index of the least so far, at distance `least`, and `i` the next index.
abbrev pub nearest_from : Decimal → ℕ → Decimal → ℕ → List OptionContract → ℕ
nearest_from price best least i [] = best
nearest_from price best least i (c ∷ cs) =
    let distance = abs (c.strike -ℤ price) in
    let here = nearest_from price i distance (suc i) cs in
    let before = nearest_from price best least (suc i) cs in
    if ltb_ℤ distance least then here else before

abbrev pub nearest : Decimal → List OptionContract → ℕ
nearest price [] = 0
nearest price (c ∷ cs) = nearest_from price 0 (abs (c.strike -ℤ price)) 1 cs

-- The item at an index; Python raises where there is none.
abbrev pub item_at : ℕ → List OptionContract → Result AnalysisError OptionContract
item_at n [] = err index_error
item_at zero (c ∷ cs) = ok c
item_at (suc n) (c ∷ cs) = item_at n cs

-- `long_index` after the adjustment at the end of the list.
abbrev pub call_index : Decimal → List OptionContract → ℕ
call_index price selected =
    let i = nearest price selected in if i == length selected - 1 then i - 1 else i

abbrev pub put_index : Decimal → List OptionContract → ℕ
put_index price selected = let i = nearest price selected in if i == 0 then 1 else i

-- The contracts that are bought and sold: the one nearest to the price, and its neighbour, above
-- for calls and below for puts.
unfoldable pub choose_legs :
    OptionType
    → Decimal
    → List OptionContract
    → Result AnalysisError (OptionContract × OptionContract)
choose_legs call price selected = do
  bought ← item_at (call_index price selected) selected
  sold ← item_at (suc (call_index price selected)) selected
  ok (bought, sold)
choose_legs put price selected = do
  bought ← item_at (put_index price selected) selected
  sold ← item_at (put_index price selected - 1) selected
  ok (bought, sold)

-- Bought at the ask and sold at the bid.
abbrev pub vertical_legs : OptionContract → OptionContract → List OptionLeg
vertical_legs bought sold =
    record { contract = bought; side = long; ratio = 1; entry_price = bought.quote.ask }
    ∷ record { contract = sold; side = short; ratio = 1; entry_price = sold.quote.bid }
    ∷ []
