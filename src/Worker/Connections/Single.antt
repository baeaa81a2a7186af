-- ===== src/Worker/Connections/Single.antt =====
-- The runtimes that `_connection_supervisor` (apps/worker/__main__.py) starts and stops, in the order of
-- its events.
use alpha_desk.Base.{
  ◌≡◌, Bool, true, false, Option, none, some, List, [], ◌∷◌, str_eq, if◌then◌else◌,
}
use alpha_desk.Base.Dict.{Dict, contains}
use alpha_desk.Domain.Workflow.{Uuid}
use alpha_desk.Worker.Connections.{ActiveRuntime, Event, starts, stops}

-- Whether the runtime of a workspace runs after an event; none, for good, if one is started while
-- another runs, or stopped while none does.
unfoldable pub advance : Uuid → Option Bool → Event → Option Bool
advance w none event = none
advance w (some runs) (starts v) =
    if str_eq v w then (if runs then none else some true) else some runs
advance w (some runs) (stops v) =
    if str_eq v w then (if runs then some false else none) else some runs

unfoldable pub replay : Uuid → Option Bool → List Event → Option Bool
replay w runs [] = runs
replay w runs (event ∷ events) = replay w (advance w runs event) events

-- The keys of a dict are distinct.
abbrev pub Distinct : Dict ActiveRuntime → Type 0
Distinct [] = Unit
Distinct ((k, _) ∷ runtimes) = (contains k runtimes ≡ false) × Distinct runtimes
