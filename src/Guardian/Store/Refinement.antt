-- ===== src/Guardian/Store/Refinement.antt =====
-- The table of packages/guardian/store.py answers every sequence of calls as the store in memory.
use alpha_desk.Base.{
  ◌≡◌, refl, Bool, true, false, Option, none, some, String, List, [], ◌∷◌, ◌++◌, arith, str_eq_self,
  ap, Option-cases, inl, inr,
}
use alpha_desk.Base.Results.{Result, ok}
use alpha_desk.Domain.Time.{Datetime}
use alpha_desk.Domain.Guardian.{GuardianTrigger, GuardianIncident, GuardianStatus}
use alpha_desk.Domain.Workflow.{Uuid}
use alpha_desk.Guardian.Store.{
  RecoveryError, new_incident, status_of, memory_halt, memory_recover, IncidentRow, domain_incident,
  active, incident_of, table_status, row_of, table_halt, clear_rows, table_recover,
}

-- A call of the protocol `GuardianStore`, with the identifier and the time that it draws.
pub data Call : Type 0 where
  ask_status : Call
  halt : Uuid → Datetime → List GuardianTrigger → String → Call
  recover : Datetime → Bool → Call

pub data Reply : Type 0 where
  reported : GuardianStatus → Reply
  incident : GuardianIncident → Reply
  recovered : Result RecoveryError GuardianStatus → Reply

unfoldable pub memory_call : Call → Option GuardianIncident → Reply × Option GuardianIncident
memory_call ask_status s = (reported (status_of s), s)
memory_call (halt id now triggers reason) s =
    let (i, s') = memory_halt id now triggers reason s in (incident i, s')
memory_call (recover now broker_known) s =
    let (r, s') = memory_recover broker_known s in (recovered r, s')

unfoldable pub memory_run :
    List Call → Option GuardianIncident → List Reply × Option GuardianIncident
memory_run [] s = ([], s)
memory_run (c ∷ cs) s =
    let (r, s') = memory_call c s in let (rs, s'') = memory_run cs s' in (r ∷ rs, s'')

module _ (workspace : Uuid) where
  unfoldable pub table_call : Call → List IncidentRow → Reply × List IncidentRow
  table_call ask_status rows = (reported (table_status workspace rows), rows)
  table_call (halt id now triggers reason) rows =
      let (i, rows') = table_halt workspace id now triggers reason rows in (incident i, rows')
  table_call (recover now broker_known) rows =
      let (r, rows') = table_recover workspace now broker_known rows in (recovered r, rows')

  unfoldable pub table_run : List Call → List IncidentRow → List Reply × List IncidentRow
  table_run [] rows = ([], rows)
  table_run (c ∷ cs) rows =
      let (r, rows') = table_call c rows in
      let (rs, rows'') = table_run cs rows' in (r ∷ rs, rows'')

  -- The abstraction: what the workspace's active row says.
  abbrev pub seen : List IncidentRow → Option GuardianIncident
  seen rows = incident_of workspace (active workspace rows)

  active-append :
      (rows : List IncidentRow) (i : GuardianIncident)
      → active workspace rows ≡ none
      → active workspace (rows ++ row_of workspace i ∷ []) ≡ some (row_of workspace i)
  unfolding active
  active-append [] i h = ground (arith, str_eq_self workspace)
  active-append (row ∷ rows) i h = ground (arith, active-append rows i)

  active-clear :
      (now : Datetime) (rows : List IncidentRow)
      → active workspace (clear_rows workspace now rows) ≡ none
  unfolding active clear_rows
  active-clear now [] = refl
  active-clear now (row ∷ rows) = ground (arith, active-clear now rows)

  halt-refines :
      (id : Uuid) (now : Datetime) (triggers : List GuardianTrigger) (reason : String)
      (rows : List IncidentRow)
      → let (i, rows') = table_halt workspace id now triggers reason rows in
        let (i', s) = memory_halt id now triggers reason (seen rows) in (i ≡ i') × (seen rows' ≡ s)
  unfolding table_halt memory_halt domain_incident
  halt-refines id now triggers reason rows = elim (Option-cases (active workspace rows)) [
    | inl e ↦ rw (e, active-append rows (new_incident id now triggers reason) e) (refl, refl)
    | inr (row, e) ↦ rw (e, e) (refl, refl)
  ]

  table_call-refines :
      (c : Call) (rows : List IncidentRow)
      → let (r, rows') = table_call c rows in
        let (r', s) = memory_call c (seen rows) in (r ≡ r') × (seen rows' ≡ s)
  unfolding table_call memory_call table_status table_recover memory_recover
  table_call-refines ask_status rows = (refl, refl)
  table_call-refines (halt id now triggers reason) rows =
      let (same, shown) = halt-refines id now triggers reason rows in (ap incident same, shown)
  table_call-refines (recover now false) rows = (refl, refl)
  table_call-refines (recover now true) rows = rw (active-clear now rows) (refl, refl)

  -- A recovery with a known broker state leaves no incident.
  pub table_recover_opens :
      (now : Datetime) (rows : List IncidentRow)
      → ((table_recover workspace now true rows).0 ≡ ok (status_of none))
        × (table_status workspace (table_recover workspace now true rows).1 ≡ status_of none)
  unfolding table_status table_recover
  table_recover_opens now rows = rw (active-clear now rows) (refl, refl)

  -- Any sequence of `status`, `halt` and `recover` calls of one workspace is answered by the table
  -- as by the store in memory that starts from the workspace's active incident.
  pub table_run-refines :
      (calls : List Call) (rows : List IncidentRow)
      → let (replies, rows') = table_run calls rows in
        let (replies', s) = memory_run calls (seen rows) in (replies ≡ replies') × (seen rows' ≡ s)
  unfolding table_run memory_run
  table_run-refines [] rows = (refl, refl)
  table_run-refines (c ∷ cs) rows =
      let (reply, shown) = table_call-refines c rows in
      let (replies, last) = table_run-refines cs (table_call c rows).1 in
      rw (← shown, reply) (ap (λ rs. (memory_call c (seen rows)).0 ∷ rs) replies, last)
