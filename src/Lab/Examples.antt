-- ===== src/Lab/Examples.antt =====
-- Runs of packages/lab/evidence.py.
use alpha_desk.Base.{ℕ, ◌≡◌, refl, Bool, true, String, List, [], ◌∷◌}
use alpha_desk.Base.Integers.{pos}
use alpha_desk.Base.Results.{ok}
use alpha_desk.Domain.Time.{Datetime}
use alpha_desk.Lab.Evidence.{
  BitemporalObservation, visible, available, Window, range_from, walk_forward_windows,
}
use alpha_desk.Samples.{noon}

abbrev by_id : String → String → Bool
by_id _ _ = true

abbrev observation : String → ℕ → ℕ → BitemporalObservation String
observation id observed available = record {
  observation_id = id;
  series = "close";
  symbol = "SPY";
  observed_at = noon observed;
  available_at = noon available;
  payload = [];
  source_version = "1";
}

seen :
    visible by_id (noon 60) (observation "a" 10 20 ∷ observation "b" 5 30 ∷ [])
    ≡ ok (observation "b" 5 30 ∷ observation "a" 10 20 ∷ [])
unfolding visible
seen = refl

abbrev times : List Datetime
times = noon 1 ∷ noon 2 ∷ noon 3 ∷ noon 4 ∷ noon 5 ∷ []

abbrev windows : List Window
windows =
    (noon 1 ∷ noon 2 ∷ [], noon 3 ∷ [])
    ∷ (noon 2 ∷ noon 3 ∷ [], noon 4 ∷ [])
    ∷ (noon 3 ∷ noon 4 ∷ [], noon 5 ∷ [])
    ∷ []

walks : walk_forward_windows times (pos 2) (pos 1) ≡ ok windows
unfolding walk_forward_windows range_from
walks = refl
