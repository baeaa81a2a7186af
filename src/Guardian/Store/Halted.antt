-- ===== src/Guardian/Store/Halted.antt =====
-- A halt of packages/guardian/store.py lasts until a recovery with a known broker state.
use alpha_desk.Base.{◌≡◌, refl, true, false, Option, none, some, String, List, [], ◌∷◌, All}
use alpha_desk.Domain.Time.{Datetime}
use alpha_desk.Domain.Guardian.{GuardianTrigger, GuardianIncident}
use alpha_desk.Domain.Workflow.{Uuid}
use alpha_desk.Guardian.Store.{status_of, memory_halt, memory_recover, IncidentRow, table_status}
use alpha_desk.Guardian.Store.Refinement.{
  Call, ask_status, halt, recover, memory_call, memory_run, table_run, seen, table_run-refines,
}

-- Any call but a recovery with a known broker state.
abbrev pub KeepsHalt : Call → Type 0
KeepsHalt (recover now true) = ⊥
KeepsHalt _ = Unit

call_keeps : (c : Call) (i : GuardianIncident) → KeepsHalt c → (memory_call c (some i)).1 ≡ some i
unfolding memory_call memory_halt memory_recover
call_keeps ask_status i h = refl
call_keeps (halt id now triggers reason) i h = refl
call_keeps (recover now true) i h = absurd h
call_keeps (recover now false) i h = refl

run_keeps :
    (calls : List Call) (i : GuardianIncident)
    → All KeepsHalt calls
    → (memory_run calls (some i)).1 ≡ some i
unfolding memory_run
run_keeps [] i h = refl
run_keeps (c ∷ cs) i h = rw (call_keeps c i h.0) (run_keeps cs i h.1)

halt_stores :
    (id : Uuid) (now : Datetime) (triggers : List GuardianTrigger) (reason : String)
    (s : Option GuardianIncident)
    → let (i, s') = memory_halt id now triggers reason s in s' ≡ some i
unfolding memory_halt
halt_stores id now triggers reason none = refl
halt_stores id now triggers reason (some i) = refl

-- After a halt, through any calls but a recovery with a known broker state, execution is not
-- allowed, and the active incident is the one of that halt, or of an earlier one that it found.
pub halt_lasts :
    (workspace : Uuid) (id : Uuid) (now : Datetime) (triggers : List GuardianTrigger)
    (reason : String) (calls : List Call) (rows : List IncidentRow)
    → All KeepsHalt calls
    → let s =
        table_status workspace (table_run workspace (halt id now triggers reason ∷ calls) rows).1 in
      (s.execution_allowed ≡ false)
      × (s.active_incident ≡ some (memory_halt id now triggers reason (seen workspace rows)).0)
unfolding table_status status_of memory_run memory_call
halt_lasts workspace id now triggers reason calls rows h =
    let start = seen workspace rows in
    let (_, last) = table_run-refines workspace (halt id now triggers reason ∷ calls) rows in
    let stored = halt_stores id now triggers reason start in
    let kept = run_keeps calls (memory_halt id now triggers reason start).0 h in
    rw (last, stored, kept) (refl, refl)
