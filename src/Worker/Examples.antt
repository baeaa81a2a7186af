-- ===== src/Worker/Examples.antt =====
-- Runs of apps/worker: the rounds of the connections, a runtime, and a scan.
use alpha_desk.Base.{◌≡◌, refl, true, none, String, List, [], ◌∷◌}
use alpha_desk.Base.Dict.{Dict}
use alpha_desk.Base.Results.{ok, err}
use alpha_desk.Base.Texts.{upper, strip}
use alpha_desk.Domain.Accounts.{Workspace}
use alpha_desk.Security.Store.{Credential}
use alpha_desk.Broker.Projections.{Memory, memory_projections, initial_memory}
use alpha_desk.Connected.Records.{Service}
use alpha_desk.Connected.Opportunities.{analyze, judge}
use alpha_desk.Worker.Connections.{
  ActiveRuntime, starts, stops, discover_credentials, stop_outdated, start_missing, round,
}
use alpha_desk.Worker.Scanner.{
  Scans, started_run, finished, scan_workspace, complete_scan_run, scan_symbols,
}
use alpha_desk.Worker.Scanner.Accounting.{Accounts}
use alpha_desk.Samples.{noon, texts, show}

abbrev desk : Workspace
desk = record {
  workspace_id = "desk";
  owner_user_id = "user";
  name = "desk";
  workspace_type = "CONNECTED_PAPER";
  status = "ACTIVE";
  scanner_enabled = true;
  created_at = noon 0;
  updated_at = noon 0;
}

abbrev keys : Credential
keys = record {
  credential_id = "c";
  workspace_id = "desk";
  provider = "ALPACA";
  key_version = "v1";
  nonce = "n";
  ciphertext = "x";
  fingerprint = "first";
  configuration = [];
  validation_status = "VERIFIED";
  enabled = true;
  validated_at = none;
  created_at = noon 0;
  updated_at = noon 0;
}

abbrev rotated : Credential
rotated = record keys { fingerprint = "second" }

abbrev first_keys : Dict ActiveRuntime
first_keys = ("desk", record { fingerprint = "first" }) ∷ []

rotates :
    round 5 (desk ∷ []) (rotated ∷ []) first_keys
    ≡ (("desk", record { fingerprint = "second" }) ∷ [], stops "desk" ∷ starts "desk" ∷ [])
unfolding round discover_credentials stop_outdated start_missing
rotates = refl

suspends :
    round 5 (record desk { status = "SUSPENDED" } ∷ []) (keys ∷ []) first_keys
    ≡ ([], stops "desk" ∷ [])
unfolding round discover_credentials stop_outdated start_missing
suspends = refl

abbrev history : List (List Workspace × List Credential)
history = (desk ∷ [], keys ∷ []) ∷ (desk ∷ [], rotated ∷ []) ∷ (desk ∷ [], []) ∷ []

abbrev secret : String
secret = "secret"

-- A vendor that does not answer.
abbrev silent : String → Service Memory
silent symbol = record {
  projections = memory_projections;
  market = record { features = λ s. err "timeout"; get_chain = λ q. err "timeout" };
  workspace = "";
  scan_run = none;
  drawn = record {
    signal_id = "s";
    trade_idea_id = "i";
    opportunity_id = "o";
    structure_id = λ n. "c";
    risk_decision_id = "r";
    order_intent_id = "n";
    evaluated_at = noon 0;
    stored_at = noon 0;
    today = 739_860;
  };
  texts = texts;
  show = show;
  id_leq = λ a b. true;
}

abbrev no_scans : Scans
no_scans = record { opportunities = []; runs = [] }

both_fail :
    scan_workspace 1 silent
      (λ s. initial_memory)
      "desk"
      "run"
      (noon 1)
      (noon 2)
      ("SPY" ∷ "QQQ" ∷ [])
      no_scans
    ≡ ok (record {
      opportunities = [];
      runs = finished (noon 2) 0 2 (started_run "run" "desk" "SCHEDULED" (noon 1) 2) ∷ [];
    })
unfolding scan_workspace complete_scan_run scan_symbols analyze judge upper strip
both_fail = refl
