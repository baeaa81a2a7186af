-- ===== src/Broker/Reconciliation/Gate.antt =====
-- When `BrokerExecutionGate.evaluate` (packages/broker/reconciliation.py) lets orders through, also
-- after a reconciliation.
use alpha_desk.Base.{
  ℕ, ◌+◌, ◌-◌, ◌≤◌, ◌≡◌, ◌↔◌, refl, ap, sym, ◌∙◌, true, false, Option, none, some, arith,
  Bool-cases, inl, inr, ltb,
}
use alpha_desk.Domain.Time.{Datetime}
use alpha_desk.Domain.System.{
  BrokerState, not_configured, unknown, reconciling, reconciled, divergent, is_reconciled,
}
use alpha_desk.Domain.Broker.{BrokerAccount, BrokerSyncStatus}
use alpha_desk.Broker.Projections.{BrokerProjectionStore}
use alpha_desk.Broker.Reconciliation.{judge_account, judge_status, evaluate}

-- What the gate wants of a status and an account.
abbrev pub Trusted : ℕ → Datetime → BrokerSyncStatus → Option BrokerAccount → Type 0
Trusted maximum_age now status account =
    (status.state ≡ reconciled)
    × ((at : Datetime) × (status.last_reconciled_at ≡ some at)
        × (now.micros ≤ at.micros + maximum_age))
    × (status.stream_connected ≡ true)
    × ((a : BrokerAccount) × (account ≡ some a)
        × (a.account_blocked ≡ false)
        × (a.trading_blocked ≡ false)
        × (a.trade_suspended_by_user ≡ false))

is_reconciled_eq : (state : BrokerState) → is_reconciled state ≡ true → state ≡ reconciled
is_reconciled_eq not_configured h = cc
is_reconciled_eq unknown h = cc
is_reconciled_eq reconciling h = cc
is_reconciled_eq reconciled h = refl
is_reconciled_eq divergent h = cc

judge_account_iff :
    (account : Option BrokerAccount)
    → ((judge_account account).allowed ≡ true) ↔ (
        (a : BrokerAccount) × (account ≡ some a)
        × (a.account_blocked ≡ false)
        × (a.trading_blocked ≡ false)
        × (a.trade_suspended_by_user ≡ false))
unfolding judge_account
judge_account_iff none = (λ h. cc, λ h. cc)
judge_account_iff (some a) = (
  λ h. (a, refl, ground arith, ground arith, ground arith),
  λ h.
      let (x, e, account_free, trading_free, user_free) = h in
      let same : a ≡ x = cc in rw (same, account_free, trading_free, user_free) refl,
)

judge_status_iff :
    (maximum_age : ℕ) (now : Datetime) (status : BrokerSyncStatus) (last : Option Datetime)
    (account : Option BrokerAccount)
    → ((judge_status maximum_age now status last account).allowed ≡ true) ↔ (
        ((at : Datetime) × (last ≡ some at) × (now.micros ≤ at.micros + maximum_age))
        × (status.stream_connected ≡ true)
        × ((judge_account account).allowed ≡ true))
unfolding judge_status
judge_status_iff maximum_age now status none account = (λ h. cc, λ h. cc)
judge_status_iff maximum_age now status (some at) account = (
  λ h. ((at, refl, ground arith), ground arith, ground arith),
  λ h.
      let ((x, e, young), up, judged) = h in
      let same : at ≡ x = cc in
      let age : ltb maximum_age (now.micros - at.micros) ≡ false = rw same (ground arith) in
      rw (age, up) judged,
)

module _ {S : Type 0} (o : BrokerProjectionStore S) where
  -- The gate lets orders through just if the last known state is reconciled, a reconciliation has
  -- a time and is at most as old as allowed, the stream is connected, and the account is known
  -- and not blocked or suspended.
  pub evaluate_allows_iff :
      (maximum_age : ℕ) (now : Datetime) (s : S)
      → ((evaluate o maximum_age now s).allowed ≡ true)
        ↔ Trusted maximum_age now (o.get_status s) (o.get_account s)
  unfolding evaluate
  evaluate_allows_iff maximum_age now s =
      let status = o.get_status s in
      let (timely, back) =
        judge_status_iff maximum_age now status status.last_reconciled_at (o.get_account s) in
      let (free, unbarred) = judge_account_iff (o.get_account s) in
      elim (Bool-cases (is_reconciled status.state)) [
        | inl known ↦ rw known (
          λ h.
              let (young, up, judged) = timely h in
              (is_reconciled_eq status.state known, young, up, free judged),
          λ h. let (state, young, up, account) = h in back (young, up, unbarred account),
        )
        | inr not_known ↦ rw not_known (λ h. cc, λ h. sym not_known ∙ ap is_reconciled h.0)
      ]
