-- ===== src/Desk/Recovery.antt =====
-- apps/api/routes/desk.py: `guardian_halt` and `guardian_recover`, the operator's kill switch and its
-- release.
use alpha_desk.Base.{
  ◌≡◌, refl, ap, ◌⊎◌, inl, inr, Bool, true, false, not, ◌&&◌, Option, none, some, List, [], ◌∷◌,
  Bool-cases, arith, &&-parts, not-true,
}
use alpha_desk.Base.Results.{Result, ok, err}
use alpha_desk.Domain.Time.{Datetime, is_older_than_micros}
use alpha_desk.Domain.System.{is_reconciled}
use alpha_desk.Domain.Guardian.{GuardianStatus, manual_kill_switch}
use alpha_desk.Domain.Broker.{BrokerSyncStatus, BrokerAccount}
use alpha_desk.Domain.Workflow.{Uuid}
use alpha_desk.Auth.Access.{HttpFailure, http_exception}
use alpha_desk.Broker.Projections.{BrokerProjectionStore}
use alpha_desk.Broker.Reconciliation.{
  maximum_reconciliation_age, evaluate, judge_status, judge_account,
}
use alpha_desk.Guardian.Store.{
  IncidentRow, RecoveryError, broker_state_unknown, table_halt, table_recover, table_status,
  status_of,
}
use alpha_desk.Guardian.Store.Refinement.{table_recover_opens}

-- `guardian_halt`
unfoldable pub guardian_halt :
    Uuid → Uuid → Datetime → List IncidentRow → GuardianStatus × List IncidentRow
guardian_halt workspace id now rows =
    let (incident, rows') =
      table_halt workspace id now (manual_kill_switch ∷ [])
        "Operator activated the connected paper kill switch." rows in
    (table_status workspace rows', rows')

-- `fresh`
abbrev pub is_fresh : Datetime → Option Datetime → Bool
is_fresh now none = false
is_fresh now (some at) = not (is_older_than_micros now at maximum_reconciliation_age)

-- `known`
abbrev pub is_known : Datetime → BrokerSyncStatus → Bool
is_known now status =
    is_reconciled status.state
    && (status.stream_connected && is_fresh now status.last_reconciled_at)

abbrev pub recovered : Result RecoveryError GuardianStatus → Result HttpFailure GuardianStatus
recovered (ok status) = ok status
recovered (err broker_state_unknown) =
    err (http_exception 409 "Guardian recovery requires known reconciled broker state")

-- `guardian_recover`
unfoldable pub guardian_recover :
    {P : Type 0}
    → BrokerProjectionStore P
    → Uuid
    → Datetime
    → P
    → List IncidentRow
    → Result HttpFailure GuardianStatus × List IncidentRow
guardian_recover projections workspace now p rows =
    let (answer, rows') =
      table_recover workspace now (is_known now (projections.get_status p)) rows in
    (recovered answer, rows')

-- What the gate says of a status that the recovery counts as known.
known-judged :
    (now : Datetime) (status : BrokerSyncStatus) (last : Option Datetime)
    (account : Option BrokerAccount)
    → (status.stream_connected && is_fresh now last) ≡ true
    → (judge_status maximum_reconciliation_age now status last account).allowed
      ≡ (judge_account account).allowed
unfolding judge_status
known-judged now status none account h = ground arith
known-judged now status (some at) account h =
    let (up, young) = &&-parts status.stream_connected (is_fresh now (some at)) h in
    let recent = not-true (is_older_than_micros now at maximum_reconciliation_age) young in
    rw (recent, up) refl

unknown-judged :
    (now : Datetime) (status : BrokerSyncStatus) (last : Option Datetime)
    (account : Option BrokerAccount)
    → (status.stream_connected && is_fresh now last) ≡ false
    → (judge_status maximum_reconciliation_age now status last account).allowed ≡ false
unfolding judge_status
unknown-judged now status none account h = refl
unknown-judged now status (some at) account h =
    elim (Bool-cases (is_older_than_micros now at maximum_reconciliation_age)) [
      | inl old ↦ rw old refl
      | inr young ↦
          let down : status.stream_connected ≡ false = ground arith in rw (young, down) refl
    ]

module _ {P : Type 0} (projections : BrokerProjectionStore P) (workspace : Uuid)
    (now : Datetime) where
  known_evaluates :
      (p : P)
      → is_known now (projections.get_status p) ≡ true
      → (evaluate projections maximum_reconciliation_age now p).allowed
        ≡ (judge_account (projections.get_account p)).allowed
  unfolding evaluate
  known_evaluates p h =
      let status = projections.get_status p in
      let (there, rest) = &&-parts (is_reconciled status.state) _ h in
      rw there (known-judged now status status.last_reconciled_at (projections.get_account p) rest)

  unknown_evaluates :
      (p : P)
      → is_known now (projections.get_status p) ≡ false
      → (evaluate projections maximum_reconciliation_age now p).allowed ≡ false
  unfolding evaluate
  unknown_evaluates p h =
      let status = projections.get_status p in
      elim (Bool-cases (is_reconciled status.state)) [
        | inl there ↦ rw there (
            unknown-judged now status status.last_reconciled_at (projections.get_account p)
              (rw there at h))
        | inr elsewhere ↦ rw elsewhere refl
      ]

  -- The operator's recovery asks of the broker's state what the broker gate asks. Either it succeeds:
  -- then the guardian reports that execution is allowed, no incident is active, and the broker gate
  -- hangs only on the account. Or it answers 409 and changes nothing, and the broker gate is shut too.
  pub guardian_recover_agrees :
      (p : P) (rows : List IncidentRow)
      → ((status : GuardianStatus) × ((guardian_recover projections workspace now p rows).0
            ≡ ok status)
          × (table_status workspace (guardian_recover projections workspace now p rows).1 ≡ status)
          × (status.execution_allowed ≡ true)
          × ((evaluate projections maximum_reconciliation_age now p).allowed
              ≡ (judge_account (projections.get_account p)).allowed))
        ⊎ ((guardian_recover projections workspace now p rows ≡ (
          err (http_exception 409 "Guardian recovery requires known reconciled broker state"),
          rows,
        ))
            × ((evaluate projections maximum_reconciliation_age now p).allowed ≡ false))
  unfolding guardian_recover table_recover status_of
  guardian_recover_agrees p rows = elim (Bool-cases (is_known now (projections.get_status p))) [
    | inl known ↦
        let (answered, left) = table_recover_opens workspace now rows in
        inl (
          status_of none,
          rw known (ap recovered answered),
          rw known left,
          refl,
          known_evaluates p known,
        )
    | inr unknown ↦ inr (rw unknown refl, unknown_evaluates p unknown)
  ]
