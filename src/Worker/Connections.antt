-- ===== src/Worker/Connections.antt =====
-- apps/worker/__main__.py: `_discover_credentials` and `_connection_supervisor`, which keep one
-- runtime for every workspace with a usable credential.
pub mod Rounds
pub mod Single
use alpha_desk.Base.{
  ℕ, zero, suc, Bool, true, false, not, ◌&&◌, Option, none, some, String, List, [], ◌∷◌, ◌++◌, keep,
  any, leb, str_eq, if◌then◌else◌, is_some,
}
use alpha_desk.Base.Dict.{Dict, lookup, contains, insert}
use alpha_desk.Base.Sorting.{order_by}
use alpha_desk.Domain.Time.{is_at_most}
use alpha_desk.Domain.Workflow.{Uuid}
use alpha_desk.Domain.Accounts.{Workspace}
use alpha_desk.Security.Store.{Credential}

-- `ActiveRuntime`: the stop event and the task are in the events that the supervisor sends.
pub record ActiveRuntime : Type 0 where
  pub fingerprint : String

-- What the supervisor does to the runtimes: it starts the task of one, or stops it and waits for it.
pub data Event : Type 0 where
  starts stops : Uuid → Event

abbrev pub is_active : List Workspace → Credential → Bool
is_active workspaces row =
    any (λ w. str_eq w.workspace_id row.workspace_id && not (str_eq w.status "SUSPENDED"))
      workspaces

abbrev pub is_usable : List Workspace → Credential → Bool
is_usable workspaces row =
    str_eq row.provider "ALPACA"
    && (str_eq row.validation_status "VERIFIED" && (row.enabled && is_active workspaces row))

-- `_discover_credentials`: the join, the conditions and the order.
unfoldable pub discover_credentials : List Workspace → List Credential → List Credential
discover_credentials workspaces rows =
    order_by (λ a b. is_at_most a.updated_at b.updated_at) (keep (is_usable workspaces) rows)

-- `credentials[:connection_limit]`
abbrev pub limited {ℓ} : {A : Type ℓ} → ℕ → List A → List A
limited zero xs = []
limited (suc n) [] = []
limited (suc n) (x ∷ xs) = x ∷ limited n xs

-- `{item.workspace_id: item for item in credentials}`
abbrev pub wanted_from : Dict Credential → List Credential → Dict Credential
wanted_from wanted [] = wanted
wanted_from wanted (row ∷ rows) = wanted_from (insert row.workspace_id row wanted) rows

abbrev pub wanted_of : List Credential → Dict Credential
wanted_of = wanted_from []

-- `record is not None and record.fingerprint == runtime.fingerprint`
abbrev pub is_current : ActiveRuntime → Option Credential → Bool
is_current runtime none = false
is_current runtime (some row) = str_eq row.fingerprint runtime.fingerprint

-- The first loop: runtimes that are not wanted, or wanted with other keys, are stopped.
unfoldable pub stop_outdated :
    Dict Credential → Dict ActiveRuntime → Dict ActiveRuntime × List Event
stop_outdated wanted [] = ([], [])
stop_outdated wanted ((workspace, runtime) ∷ runtimes) =
    let (kept, events) = stop_outdated wanted runtimes in
    if is_current runtime (lookup workspace wanted)
    then ((workspace, runtime) ∷ kept, events)
    else (kept, stops workspace ∷ events)

-- The second loop: what is wanted and does not run is started.
unfoldable pub start_missing :
    Dict Credential → Dict ActiveRuntime → Dict ActiveRuntime × List Event
start_missing [] runtimes = (runtimes, [])
start_missing ((workspace, row) ∷ wanted) runtimes =
    let runs = contains workspace runtimes in
    let next =
      if runs
      then runtimes
      else insert workspace (record { fingerprint = row.fingerprint }) runtimes in
    let (running, events) = start_missing wanted next in
    (running, if runs then events else starts workspace ∷ events)

-- One round of `_connection_supervisor`.
unfoldable pub round :
    ℕ → List Workspace → List Credential → Dict ActiveRuntime → Dict ActiveRuntime × List Event
round limit workspaces rows runtimes =
    let wanted = wanted_of (limited limit (discover_credentials workspaces rows)) in
    let (kept, stopped) = stop_outdated wanted runtimes in
    let (now_running, started) = start_missing wanted kept in (now_running, stopped ++ started)

-- The loop, over what the database holds in each round.
unfoldable pub rounds :
    ℕ
    → List (List Workspace × List Credential)
    → Dict ActiveRuntime
    → Dict ActiveRuntime × List Event
rounds limit [] runtimes = (runtimes, [])
rounds limit ((workspaces, rows) ∷ rest) runtimes =
    let (running, events) = round limit workspaces rows runtimes in
    let (last, later) = rounds limit rest running in (last, events ++ later)
