-- ===== src/Lab/Evidence/Forward.antt =====
-- The windows of `walk_forward_windows` (packages/lab/evidence.py): their sizes, and that training
-- never sees the time of a test.
use alpha_desk.Base.{
  ℕ, zero, suc, ◌+◌, ◌≤◌, ◌<◌, ◌≡◌, refl, ap, ◌∙◌, List, [], ◌∷◌, arith, All, length, ltb,
  if◌then◌else◌,
}
use alpha_desk.Domain.Time.{Datetime}
use alpha_desk.Lab.Evidence.{range_from, Window}

-- Every time of the first list is before every time of the second.
abbrev pub AllBefore : List Datetime → List Datetime → Type 0
AllBefore train test = All (λ t. All (λ u. t.micros < u.micros) test) train

range_from_done : (fuel start stop step : ℕ) → stop ≤ start → range_from fuel start stop step ≡ []
unfolding range_from
range_from_done zero start stop step h = refl
range_from_done (suc fuel) start stop step h = ground arith

-- The fuel of the range is enough: more of it changes nothing.
pub range_from_enough :
    (fuel extra start stop step : ℕ)
    → 0 < step
    → stop ≤ start + fuel
    → range_from (fuel + extra) start stop step ≡ range_from fuel start stop step
unfolding range_from
range_from_enough zero extra start stop step positive h =
    range_from_done (0 + extra) start stop step (omega arith)
range_from_enough (suc fuel) extra start stop step positive h =
    let e : suc fuel + extra ≡ suc (fuel + extra) = omega arith in
    ap (λ n. range_from n start stop step) e
    ∙ ap (λ rest. if ltb start stop then start ∷ rest else [])
        (range_from_enough fuel extra (start + step) stop step positive (omega arith))

-- What a window promises.
abbrev pub IsWindow : ℕ → ℕ → Window → Type 0
IsWindow training testing (train, test) =
    (length train ≡ training) × (length test ≡ testing) × AllBefore train test
