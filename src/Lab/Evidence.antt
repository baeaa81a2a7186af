-- ===== src/Lab/Evidence.antt =====
-- packages/lab/evidence.py: the clock of a simulation and the windows of a walk-forward test, with
-- the data of packages/domain/lab.py that they use.
pub mod Forward
use alpha_desk.Base.{
  ℕ, zero, suc, ◌+◌, ◌-◌, ◌≤◌, ◌≡◌, ap, Bool, true, false, not, ◌&&◌, ◌||◌, Option, none, some,
  String, List, [], ◌∷◌, keep, length, is_nil, ltb, leb, ◌==◌, str_eq, if◌then◌else◌, Bool-cases,
  inl, inr,
}
use alpha_desk.Base.Integers.{ℤ, pos, pos_part, leb_ℤ}
use alpha_desk.Base.Dict.{Dict}
use alpha_desk.Base.Results.{Result, ok, err, ◌>>=◌, ◌>>◌, require, require-pass}
use alpha_desk.Base.Sorting.{order_by, order_by-Perm, InOrder}
use mathlib.Core.List.{Perm}
use alpha_desk.Domain.Time.{Datetime, is_at_most}
use alpha_desk.Domain.Workflow.{Uuid}

-- `P` stands for the values of a payload.
pub record BitemporalObservation (P : Type 0) : Type 0 where
  pub observation_id : Uuid
  pub series : String
  pub symbol : String
  pub observed_at : Datetime
  pub available_at : Datetime
  pub payload : Dict P
  pub source_version : String

-- The `ValueError`s.
pub data EvidenceError : Type 0 where
  naive_clock window_size : EvidenceError

module _ {P : Type 0} (id_leq : String → String → Bool) where
  -- The order of the keys `(observed_at, available_at, str(observation_id))`.
  abbrev pub key_leq : BitemporalObservation P → BitemporalObservation P → Bool
  key_leq a b =
      ltb a.observed_at.micros b.observed_at.micros
      || (a.observed_at.micros == b.observed_at.micros
          && (ltb a.available_at.micros b.available_at.micros
              || (a.available_at.micros == b.available_at.micros
                  && id_leq a.observation_id b.observation_id)))

  abbrev pub available : Datetime → List (BitemporalObservation P) → List (BitemporalObservation P)
  available now = keep (λ item. is_at_most item.available_at now)

  -- `SimulationClock.visible`
  unfoldable pub visible :
      Datetime
      → List (BitemporalObservation P)
      → Result EvidenceError (List (BitemporalObservation P))
  visible now observations = do
    require now.has_tzinfo naive_clock
    ok (order_by key_leq (available now observations))

  -- At an aware time the clock always shows something, and that is exactly what is available then,
  -- in some order.
  pub visible-Perm :
      (now : Datetime) (xs : List (BitemporalObservation P))
      → now.has_tzinfo ≡ true
      → (seen : List (BitemporalObservation P)) × (visible now xs ≡ ok seen)
        × Perm seen (available now xs)
  unfolding visible
  visible-Perm now xs aware = (
    order_by key_leq (available now xs),
    require-pass naive_clock _ aware,
    order_by-Perm key_leq (available now xs),
  )

-- `xs[:n]` and `xs[n:]`
abbrev pub take : {A : Type 0} → ℕ → List A → List A
take zero xs = []
take (suc n) [] = []
take (suc n) (x ∷ xs) = x ∷ take n xs

abbrev pub drop : {A : Type 0} → ℕ → List A → List A
drop zero xs = xs
drop (suc n) [] = []
drop (suc n) (x ∷ xs) = drop n xs

-- `range(start, stop, step)` on fuel: `stop` is enough for a positive step.
unfoldable pub range_from : ℕ → ℕ → ℕ → ℕ → List ℕ
range_from zero start stop step = []
range_from (suc fuel) start stop step =
    let rest = range_from fuel (start + step) stop step in
    if ltb start stop then start ∷ rest else []

-- `max(train) < min(test)` of two lists that are not empty, and `train and test` before it.
abbrev pub latest : Datetime → List Datetime → ℕ
latest t [] = t.micros
latest t (u ∷ us) = let rest = latest u us in if ltb rest t.micros then t.micros else rest

abbrev pub earliest : Datetime → List Datetime → ℕ
earliest t [] = t.micros
earliest t (u ∷ us) = let rest = earliest u us in if ltb t.micros rest then t.micros else rest

abbrev pub is_forward : List Datetime → List Datetime → Bool
is_forward [] _ = false
is_forward (t ∷ ts) [] = false
is_forward (t ∷ ts) (u ∷ us) = ltb (latest t ts) (earliest u us)

abbrev pub Window : Type 0
Window = List Datetime × List Datetime

module _ (timestamps : List Datetime) (training testing : ℕ) where
  abbrev window_at : ℕ → Window
  window_at start =
      (take training (drop start timestamps), take testing (drop (start + training) timestamps))

  abbrev windows_at : List ℕ → List Window
  windows_at [] = []
  windows_at (start ∷ starts) =
      let (train, test) = window_at start in
      if is_forward train test then (train, test) ∷ windows_at starts else windows_at starts

-- `walk_forward_windows`
unfoldable pub walk_forward_windows : List Datetime → ℤ → ℤ → Result EvidenceError (List Window)
walk_forward_windows timestamps training_size testing_size = do
  require (not (leb_ℤ training_size (pos 0) || leb_ℤ testing_size (pos 0))) window_size
  let training = pos_part training_size
  let testing = pos_part testing_size
  let stop = length timestamps + 1 - (training + testing)
  ok (windows_at timestamps training testing (range_from stop 0 stop testing))
