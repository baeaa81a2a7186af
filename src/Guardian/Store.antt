-- ===== src/Guardian/Store.antt =====
-- packages/guardian/store.py: the incident that halts trading, in memory and in a table, and what
-- both stores promise.
pub mod Refinement
pub mod Halted
use alpha_desk.Base.{
  Bool, true, false, not, ◌&&◌, Option, none, some, String, List, [], ◌∷◌, ◌++◌, map, str_eq,
  if◌then◌else◌, is_some, ltb,
}
use alpha_desk.Base.Results.{Result, ok, err}
use alpha_desk.Domain.Time.{Datetime}
use alpha_desk.Domain.Guardian.{
  GuardianTrigger, GuardianState, normal, halted, GuardianIncident, GuardianStatus,
}
use alpha_desk.Domain.Workflow.{Uuid}

-- The `RuntimeError` of `recover`.
pub data RecoveryError : Type 0 where
  broker_state_unknown : RecoveryError

-- The new incident of `halt`; its identifier and its time are arguments.
abbrev pub new_incident : Uuid → Datetime → List GuardianTrigger → String → GuardianIncident
new_incident id now triggers reason = record {
  incident_id = id;
  state = halted;
  triggers = triggers;
  reason = reason;
  activated_at = now;
  cleared_at = none;
}

abbrev state_of : Option GuardianIncident → GuardianState
state_of none = normal
state_of (some incident) = incident.state

-- `status` of both stores, from the active incident.
unfoldable pub status_of : Option GuardianIncident → GuardianStatus
status_of incident = record {
  state = state_of incident;
  active_incident = incident;
  execution_allowed = not (is_some incident);
}

-- `MemoryGuardianStore.halt`: the incident that it returns, and the new field `incident`.
pub memory_halt :
    Uuid
    → Datetime
    → List GuardianTrigger
    → String
    → Option GuardianIncident
    → GuardianIncident × Option GuardianIncident
memory_halt id now triggers reason none =
    let incident = new_incident id now triggers reason in (incident, some incident)
memory_halt id now triggers reason (some incident) = (incident, some incident)

-- `MemoryGuardianStore.recover`
pub memory_recover :
    Bool → Option GuardianIncident → Result RecoveryError GuardianStatus × Option GuardianIncident
memory_recover false incident = (err broker_state_unknown, incident)
memory_recover true incident = (ok (status_of none), none)

-- A row of the table of incidents.
pub record IncidentRow : Type 0 where
  pub incident_id : Uuid
  pub workspace_id : Uuid
  pub state : GuardianState
  pub triggers : List GuardianTrigger
  pub reason : String
  pub activated_at : Datetime
  pub cleared_at : Option Datetime

-- `PostgresGuardianStore._domain`
pub domain_incident : IncidentRow → GuardianIncident
domain_incident row = record {
  incident_id = row.incident_id;
  state = row.state;
  triggers = row.triggers;
  reason = row.reason;
  activated_at = row.activated_at;
  cleared_at = row.cleared_at;
}

-- `PostgresGuardianStore` of one workspace.
module _ (workspace : Uuid) where
  -- The condition of both queries: the workspace's rows that are not cleared.
  abbrev is_open : IncidentRow → Bool
  is_open row = str_eq row.workspace_id workspace && not (is_some row.cleared_at)

  abbrev newer_of : IncidentRow → Option IncidentRow → Option IncidentRow
  newer_of row none = some row
  newer_of row (some other) =
      if ltb row.activated_at.micros other.activated_at.micros then some other else some row

  -- `_active`: the open row that was activated last.
  pub active : List IncidentRow → Option IncidentRow
  active [] = none
  active (row ∷ rows) = let rest = active rows in if is_open row then newer_of row rest else rest

  abbrev incident_of : Option IncidentRow → Option GuardianIncident
  incident_of none = none
  incident_of (some row) = some (domain_incident row)

  pub table_status : List IncidentRow → GuardianStatus
  table_status rows = status_of (incident_of (active rows))

  abbrev row_of : GuardianIncident → IncidentRow
  row_of incident = record {
    incident_id = incident.incident_id;
    workspace_id = workspace;
    state = incident.state;
    triggers = incident.triggers;
    reason = incident.reason;
    activated_at = incident.activated_at;
    cleared_at = none;
  }

  abbrev halt_beside :
      GuardianIncident → List IncidentRow → Option IncidentRow → GuardianIncident × List IncidentRow
  halt_beside incident rows none = (incident, rows ++ row_of incident ∷ [])
  halt_beside incident rows (some row) = (domain_incident row, rows)

  pub table_halt :
      Uuid
      → Datetime
      → List GuardianTrigger
      → String
      → List IncidentRow
      → GuardianIncident × List IncidentRow
  table_halt id now triggers reason rows =
      halt_beside (new_incident id now triggers reason) rows (active rows)

  -- The update of `recover`.
  pub clear_rows : Datetime → List IncidentRow → List IncidentRow
  clear_rows now [] = []
  clear_rows now (row ∷ rows) =
      (if is_open row then record row { state = normal; cleared_at = some now } else row)
      ∷ clear_rows now rows

  unfoldable pub table_recover :
      Datetime → Bool → List IncidentRow → Result RecoveryError GuardianStatus × List IncidentRow
  table_recover now false rows = (err broker_state_unknown, rows)
  table_recover now true rows = let rows' = clear_rows now rows in (ok (table_status rows'), rows')
