-- ===== src/Worker/Runtime.antt =====
-- apps/worker/__main__.py: `_workspace_runtime`, from the credential of a workspace to the end of its
-- tasks, and the broker gate behind it.
use alpha_desk.Base.{ℕ, false, Option, none, some, String, List, map, str_eq, if◌then◌else◌}
use alpha_desk.Base.Results.{Result, ok, err}
use alpha_desk.Domain.Workflow.{Uuid}
use alpha_desk.Domain.Accounts.{Workspace}
use alpha_desk.Domain.Broker.{ReconciliationSnapshot}
use alpha_desk.Broker.Projections.{BrokerProjectionStore}
use alpha_desk.Broker.Reconciliation.{reconcile}
use alpha_desk.Broker.Reconciliation.Failure.{Step, take_steps}

-- `_set_workspace_status`: nothing happens to a workspace that is gone.
abbrev pub set_workspace_status : Uuid → String → List Workspace → List Workspace
set_workspace_status workspace status =
    map (λ w. if str_eq w.workspace_id workspace then record w { status = status } else w)

module _ {S : Type 0} (o : BrokerProjectionStore S) (workspace : Uuid) where
  -- The `try`, by the outcome of the reconciliation at its head. The two tasks take the steps until
  -- the stop event is set or the runtime is cancelled; nothing else ends the wait.
  abbrev pub run_tasks : List Step → List Workspace → Result String ℕ × S → List Workspace × S
  run_tasks steps workspaces (err e, s) =
      (set_workspace_status workspace "CONNECTION_ERROR" workspaces, s)
  run_tasks steps workspaces (ok _, s) =
      (set_workspace_status workspace "ACTIVE" workspaces, take_steps o steps s)

  -- The `finally`.
  abbrev pub closed : List Workspace × S → List Workspace × S
  closed (workspaces, s) = (workspaces, o.set_stream_connected false s)

  -- Without a credential the runtime ends at once. The adapter is a parameter, by its answer.
  unfoldable pub workspace_runtime :
      {C : Type 0}
      → Option C
      → Result String ReconciliationSnapshot
      → List Step
      → List Workspace
      → S
      → List Workspace × S
  workspace_runtime none answer steps workspaces s = (workspaces, s)
  workspace_runtime (some secret) answer steps workspaces s =
      closed (run_tasks steps workspaces (reconcile o answer s))
