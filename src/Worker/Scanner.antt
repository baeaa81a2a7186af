-- ===== src/Worker/Scanner.antt =====
-- apps/worker/__main__.py: `_scanner_supervisor`, one pass over the workspaces, and the scan runs of
-- packages/connected/opportunities.py that it writes.
pub mod Accounting
use alpha_desk.Base.{
  ℕ, suc, ◌+◌, ◌-◌, ◌*◌, Bool, true, false, not, ◌&&◌, ◌||◌, any, Option, none, some, String, List,
  [], ◌∷◌, ◌++◌, map, keep, length, leb, ltb, ◌==◌, str_eq, if◌then◌else◌, is_some,
}
use alpha_desk.Base.Dict.{Dict, lookup, insert}
use alpha_desk.Base.Results.{Result, ok, err, ◌>>=◌}
use alpha_desk.Domain.Time.{Datetime, micros_per_second, is_older_than_micros}
use alpha_desk.Domain.Workflow.{Uuid}
use alpha_desk.Domain.Accounts.{Workspace, WatchlistSymbol}
use alpha_desk.Connected.Records.{
  AnalysisError, ConnectedAnalysis, ConnectedOpportunity, Service, Drawn, Market,
}
use alpha_desk.Connected.Opportunities.{analyze}

-- `ConnectedScanRunRecord`
pub record ScanRun : Type 0 where
  pub scan_run_id : Uuid
  pub workspace_id : Uuid
  pub trigger : String
  pub source : String
  pub started_at : Datetime
  pub completed_at : Option Datetime
  pub attempted_count : ℕ
  pub completed_count : ℕ
  pub failed_count : ℕ

abbrev pub started_run : Uuid → Uuid → String → Datetime → ℕ → ScanRun
started_run id workspace trigger now attempted = record {
  scan_run_id = id;
  workspace_id = workspace;
  trigger = trigger;
  source = "ALPACA_REAL";
  started_at = now;
  completed_at = none;
  attempted_count = attempted;
  completed_count = 0;
  failed_count = 0;
}

-- `start_scan_run`
abbrev pub start_scan_run : ScanRun → List ScanRun → List ScanRun
start_scan_run run runs = runs ++ run ∷ []

abbrev pub finished : Datetime → ℕ → ℕ → ScanRun → ScanRun
finished now completed failed run = record run {
  completed_at = some now;
  completed_count = completed;
  failed_count = failed;
}

-- `complete_scan_run`; the `RuntimeError` if the run is gone.
unfoldable pub complete_scan_run :
    Uuid → Datetime → ℕ → ℕ → List ScanRun → Result String (List ScanRun)
complete_scan_run id now completed failed runs =
    if any (λ run. str_eq run.scan_run_id id) runs
    then ok (
        map (λ run. if str_eq run.scan_run_id id then finished now completed failed run else run)
          runs)
    else err "Connected scan run disappeared before completion"

-- A local time in New York; the library of time zones is a parameter.
pub record Eastern : Type 0 where
  pub weekday : ℕ
  pub hour : ℕ
  pub minute : ℕ

-- `_market_is_open`
abbrev pub market_is_open : (Datetime → Eastern) → Datetime → Bool
market_is_open zone now =
    let eastern = zone now in
    let minutes = eastern.hour * 60 + eastern.minute in
    ltb eastern.weekday 5 && (leb 570 minutes && ltb minutes 960)

-- The tables of opportunities and of scan runs.
pub record Scans : Type 0 where
  pub opportunities : List ConnectedOpportunity
  pub runs : List ScanRun

abbrev pub is_ok {ℓ} : {E A : Type ℓ} → Result E A → Bool
is_ok (ok _) = true
is_ok (err _) = false

-- `completed_count`, `failed_count` and the opportunities that were written.
pub record Counted : Type 0 where
  pub completed : ℕ
  pub failed : ℕ
  pub rows : List ConnectedOpportunity

abbrev pub count : Bool → Counted → Counted
count true counted = record counted { completed = suc counted.completed }
count false counted = record counted { failed = suc counted.failed }

-- The world at each symbol: the service with its answers, and the copy of the broker's state.
module _ (step : ℕ) {S : Type 0} (service_at : String → Service S) (state_at : String → S) where
  abbrev pub service_for : Uuid → Uuid → String → Service S
  service_for workspace run symbol = record (service_at symbol) {
    workspace = workspace;
    scan_run = some run;
  }

  -- The loop over the symbols.
  unfoldable pub scan_symbols : Uuid → Uuid → List String → List ConnectedOpportunity → Counted
  scan_symbols workspace run [] rows = record { completed = 0; failed = 0; rows = rows }
  scan_symbols workspace run (symbol ∷ symbols) rows =
      let (answer, written) =
        analyze step (service_for workspace run symbol) symbol (state_at symbol) rows in
      count (is_ok answer) (scan_symbols workspace run symbols written)

  -- The scan of one workspace, from `start_scan_run` to `complete_scan_run`.
  unfoldable pub scan_workspace :
      Uuid → Uuid → Datetime → Datetime → List String → Scans → Result String Scans
  scan_workspace workspace run started completed_at symbols db = do
    let counted = scan_symbols workspace run symbols db.opportunities
    runs ←
        complete_scan_run run completed_at counted.completed counted.failed
          (start_scan_run (started_run run workspace "SCHEDULED" started (length symbols)) db.runs)
    ok (record { opportunities = counted.rows; runs = runs })

  -- `last is not None and now - last < timedelta(minutes=5)`
  abbrev pub is_recent : Datetime → Option Datetime → Bool
  is_recent now none = false
  is_recent now (some last) = ltb (now.micros - last.micros) (300 * micros_per_second)

  abbrev pub is_scanned : Workspace → Bool
  is_scanned workspace = workspace.scanner_enabled && str_eq workspace.status "ACTIVE"

  abbrev pub symbols_of : Uuid → List WatchlistSymbol → List String
  symbols_of workspace watchlist =
      map (λ row. row.symbol) (keep (λ row. str_eq row.workspace_id workspace) watchlist)

  -- The loop over the workspaces, where `has_secret` tells whether one has a credential, and `run_for`
  -- is the fresh identifier of its run.
  unfoldable pub scan_all :
      (Uuid → Bool)
      → (Uuid → Uuid)
      → Datetime
      → Datetime
      → List WatchlistSymbol
      → List Workspace
      → Dict Datetime
      → Scans
      → Result String (Dict Datetime × Scans)
  scan_all has_secret run_for now completed_at watchlist [] last_scans db = ok (last_scans, db)
  scan_all has_secret run_for now completed_at watchlist (workspace ∷ workspaces) last_scans db =
      let id = workspace.workspace_id in
      let skipped =
        scan_all has_secret run_for now completed_at watchlist workspaces last_scans db in
      let scanned =
        scan_workspace id (run_for id) now completed_at (symbols_of id watchlist) db >>= λ db'.
        scan_all has_secret run_for now completed_at watchlist workspaces (insert id now last_scans)
          db' in
      if is_recent now (lookup id last_scans) || not (has_secret id) then skipped else scanned

  -- One round of `_scanner_supervisor`.
  unfoldable pub scan_round :
      (Datetime → Eastern)
      → (Uuid → Bool)
      → (Uuid → Uuid)
      → Datetime
      → Datetime
      → List WatchlistSymbol
      → List Workspace
      → Dict Datetime
      → Scans
      → Result String (Dict Datetime × Scans)
  scan_round zone has_secret run_for now completed_at watchlist workspaces last_scans db =
      if market_is_open zone now
      then scan_all has_secret run_for now completed_at watchlist (keep is_scanned workspaces)
          last_scans db
      else ok (last_scans, db)
