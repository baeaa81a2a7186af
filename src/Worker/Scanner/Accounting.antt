-- ===== src/Worker/Scanner/Accounting.antt =====
-- The counts and rows of a scan of apps/worker/__main__.py.
use alpha_desk.Base.{◌+◌, ◌≡◌, String, List, ◌++◌, length, All}
use alpha_desk.Domain.Workflow.{Uuid}
use alpha_desk.Connected.Records.{ConnectedOpportunity}
use alpha_desk.Worker.Scanner.{Counted}

-- What a scan of symbols owes to its workspace: one row for each analysis that completed.
pub record Accounts (workspace : Uuid) (symbols : List String) (rows : List ConnectedOpportunity)
    (counted : Counted) : Type 0 where
  pub written : List ConnectedOpportunity
  pub appended : counted.rows ≡ rows ++ written
  pub one_each : length written ≡ counted.completed
  pub all_counted : counted.completed + counted.failed ≡ length symbols
  pub own : All (λ row. row.workspace_id ≡ workspace) written
