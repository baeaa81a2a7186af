-- ===== src/Guardian/Gate.antt =====
-- packages/guardian/gate.py: what the execution engine is told, and what follows for orders.
use alpha_desk.Base.{
  Bool-cases, inl, inr, refl, ◌≡◌, Bool, true, false, not, Option, none, some, String, List, ◌∷◌,
  if◌then◌else◌, All,
}
use alpha_desk.Base.Results.{err}
use alpha_desk.Domain.Time.{Datetime}
use alpha_desk.Domain.Guardian.{GuardianTrigger, GuardianIncident, GuardianStatus}
use alpha_desk.Domain.Workflow.{Uuid, OrderIntent}
use alpha_desk.Execution.Engine.{IntentStore, Broker, Desk, execution_blocked, execute}
use alpha_desk.Execution.Engine.Stores.{KeepsIntents}
use alpha_desk.Execution.Engine.Outcomes.{execute_blocked}
use alpha_desk.Guardian.Store.{IncidentRow, memory_halt, table_status}
use alpha_desk.Guardian.Store.Refinement.{Call, halt, table_run, seen}
use alpha_desk.Guardian.Store.Halted.{KeepsHalt, halt_lasts}

abbrev reason_of : Option GuardianIncident → String
reason_of (some incident) = incident.reason
reason_of none = "Guardian is halted"

-- `GuardianExecutionGate.execution_allowed`
unfoldable pub execution_allowed : GuardianStatus → Bool × String
execution_allowed status =
    if not status.execution_allowed
    then (false, reason_of status.active_incident)
    else (true, "Guardian is normal")

pub execution_allowed_lem :
    (status : GuardianStatus) → (execution_allowed status).0 ≡ status.execution_allowed
unfolding execution_allowed
execution_allowed_lem status = elim (Bool-cases status.execution_allowed) [
  | inl allowed ↦ rw allowed refl
  | inr shut ↦ rw shut refl
]

-- After a halt, and through any calls of the guardian's store but a recovery with a known broker
-- state, the gate makes `execute` raise with the reason of the active incident, before anything is
-- reserved or submitted.
pub halted_blocks_execute :
    {S : Type 0} (o : IntentStore S) (keeps : KeepsIntents o) (broker : Broker) (workspace : Uuid)
    (id : Uuid) (now : Datetime) (triggers : List GuardianTrigger) (reason : String)
    (calls : List Call) (rows : List IncidentRow) (intent : OrderIntent) (d : Desk S)
    → All KeepsHalt calls
    → let status =
        table_status workspace (table_run workspace (halt id now triggers reason ∷ calls) rows).1 in
      let incident = (memory_halt id now triggers reason (seen workspace rows)).0 in
      execute o broker (some (execution_allowed status)) intent d
      ≡ (err (execution_blocked incident.reason), d)
unfolding execution_allowed
halted_blocks_execute o keeps broker workspace id now triggers reason calls rows intent d h =
    let (shut, active) = halt_lasts workspace id now triggers reason calls rows h in
    rw (shut, active) (execute_blocked o keeps broker intent d _)
