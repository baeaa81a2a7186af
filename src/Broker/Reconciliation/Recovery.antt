-- ===== src/Broker/Reconciliation/Recovery.antt =====
-- What `ReconciliationService` (packages/broker/reconciliation.py) leaves behind on every branch,
-- and that after a loss of the broker only a reconciliation opens the gate again.
use alpha_desk.Base.{
  ℕ, suc, ◌+◌, ◌≤◌, ◌≡◌, ◌≢◌, ◌↔◌, refl, ap, sym, ◌∙◌, true, false, none, some, String, Bool-cases,
  inl, inr,
}
use alpha_desk.Base.Results.{Result, ok, err, Result-cases, ok-injective}
use alpha_desk.Domain.Time.{Datetime}
use alpha_desk.Domain.System.{unknown, reconciling, reconciled}
use alpha_desk.Domain.Broker.{ReconciliationSnapshot}
use alpha_desk.Domain.Workflow.{◌⧺◌}
use alpha_desk.Broker.Projections.{BrokerProjectionStore, Knows, BrokerWins, Wins}
use alpha_desk.Broker.Reconciliation.{evaluate, begin_reconcile, end_reconcile, reconcile}
use alpha_desk.Broker.Reconciliation.Gate.{evaluate_allows_iff}

some_eq : {A : Type 0} {a b : A} → some a ≡ some b → a ≡ b
some_eq h = cc

module _ {S : Type 0} (o : BrokerProjectionStore S) (knows : Knows S)
    (wins : BrokerWins o knows) where
  -- What a reconciliation with this answer, that ended in `result`, has made of the store.
  abbrev pub Settled : Result String ReconciliationSnapshot → S → Result String ℕ → S → Type 0
  Settled answer s (ok n) s' =
      (snapshot : ReconciliationSnapshot) × (answer ≡ ok snapshot) × Wins o knows snapshot n s s'
  Settled answer s (err e) s' =
      ((o.get_status s').state ≡ unknown)
      × ((o.get_status s').failure_reason ≡ some ("Reconciliation failed: " ⧺ e))
      × (o.get_account s' ≡ o.get_account s)
      × ((k : String) → knows.has_position k s' ≡ knows.has_position k s)
      × ((k : String) → knows.has_order k s' ≡ knows.has_order k s)

  failed :
      (answer : Result String ReconciliationSnapshot) (s : S) (e : String)
      → Settled answer s (err e) (o.mark_state unknown (some ("Reconciliation failed: " ⧺ e)) s)
  failed answer s e =
      let reason = some ("Reconciliation failed: " ⧺ e) in
      let status = wins.mark_status unknown reason s in
      (
        ap (λ b. b.state) status,
        ap (λ b. b.failure_reason) status,
        wins.mark_account unknown reason s,
        λ k. (wins.mark_knows unknown reason s k).0,
        λ k. (wins.mark_knows unknown reason s k).1,
      )

  Wins-begin :
      (snapshot : ReconciliationSnapshot) (n : ℕ) (s s' : S)
      → Wins o knows snapshot n (begin_reconcile o s) s'
      → Wins o knows snapshot n s s'
  unfolding begin_reconcile
  Wins-begin snapshot n s s' w =
      let status = wins.mark_status reconciling none s in
      let known = λ (k : String). wins.mark_knows reconciling none s k in
      record {
        state = w.state;
        reconciled_at = w.reconciled_at;
        failure = w.failure;
        generation = w.generation ∙ ap (λ b. suc b.generation) status;
        divergence = w.divergence ∙ ap (λ b. b.divergence_count + n) status;
        stream = w.stream ∙ ap (λ b. b.stream_connected) status;
        account = w.account;
        positions = w.positions;
        orders = w.orders;
        agreed = (
          λ zero.
              let (p, q) = w.agreed.0 zero in
              (λ k. sym (known k).0 ∙ p k, λ k. sym (known k).1 ∙ q k),
          λ h. w.agreed.1 (λ k. (known k).0 ∙ h.0 k, λ k. (known k).1 ∙ h.1 k),
        );
      }

  begin_keeps :
      (s : S)
      → (o.get_account (begin_reconcile o s) ≡ o.get_account s)
        × ((k : String) → knows.has_position k (begin_reconcile o s) ≡ knows.has_position k s)
        × ((k : String) → knows.has_order k (begin_reconcile o s) ≡ knows.has_order k s)
  unfolding begin_reconcile
  begin_keeps s = (
    wins.mark_account reconciling none s,
    λ k. (wins.mark_knows reconciling none s k).0,
    λ k. (wins.mark_knows reconciling none s k).1,
  )

  end-Settled :
      (answer : Result String ReconciliationSnapshot) (s : S)
      → Settled answer s (end_reconcile o answer s).0 (end_reconcile o answer s).1
  unfolding end_reconcile
  end-Settled (err e) s = failed (err e) s e
  end-Settled (ok snapshot) s = elim (Result-cases (o.apply_reconciliation snapshot s)) [
    | inl ((n, s'), done) ↦ rw done (snapshot, refl, wins.apply_wins snapshot s n s' done)
    | inr (e, done) ↦ rw done (failed (ok snapshot) s e)
  ]

  Settled-begin :
      (answer : Result String ReconciliationSnapshot) (s s' : S) (result : Result String ℕ)
      → Settled answer (begin_reconcile o s) result s'
      → Settled answer s result s'
  Settled-begin answer s s' (ok n) (snapshot, same, w) =
      (snapshot, same, Wins-begin snapshot n s s' w)
  Settled-begin answer s s' (err e) (state, reason, account, positions, orders) =
      let (a, p, q) = begin_keeps s in
      (state, reason, account ∙ a, λ k. positions k ∙ p k, λ k. orders k ∙ q k)

  pub reconcile-Settled :
      (answer : Result String ReconciliationSnapshot) (s : S)
      → Settled answer s (reconcile o answer s).0 (reconcile o answer s).1
  unfolding reconcile
  reconcile-Settled answer s = Settled-begin answer s _ _ (end-Settled answer (begin_reconcile o s))

  Settled-returned :
      (snapshot : ReconciliationSnapshot) (s s' : S) (n : ℕ) (result : Result String ℕ)
      → result ≡ ok n
      → Settled (ok snapshot) s result s'
      → Wins o knows snapshot n s s'
  Settled-returned snapshot s s' n (ok m) h (given, same, w) =
      rw (ok-injective snapshot given same, ← ok-injective m n h) w
  Settled-returned snapshot s s' n (err e) h settled = cc

  -- The conditions that remain when the broker has won.
  Wins-opens_iff :
      (snapshot : ReconciliationSnapshot) (s s' : S) (n maximum_age : ℕ) (now : Datetime)
      → Wins o knows snapshot n s s'
      → ((evaluate o maximum_age now s').allowed ≡ true) ↔ (
          (now.micros ≤ snapshot.reconciled_at.micros + maximum_age)
          × ((o.get_status s).stream_connected ≡ true)
          × (snapshot.account.account_blocked ≡ false)
          × (snapshot.account.trading_blocked ≡ false)
          × (snapshot.account.trade_suspended_by_user ≡ false))
  Wins-opens_iff snapshot s s' n maximum_age now w =
      let (there, back) = evaluate_allows_iff o maximum_age now s' in
      (
        λ allowed.
            let (state, (t, seen, young), up, (a, known, free, trading, user)) = there allowed in
            let same_time : snapshot.reconciled_at ≡ t = some_eq (sym w.reconciled_at ∙ seen) in
            let same_account : snapshot.account ≡ a = some_eq (sym w.account ∙ known) in
            (
              rw same_time young,
              sym w.stream ∙ up,
              rw same_account free,
              rw same_account trading,
              rw same_account user,
            ),
        λ h.
            let (young, up, free, trading, user) = h in
            back (
              w.state,
              (snapshot.reconciled_at, w.reconciled_at, young),
              w.stream ∙ up,
              (snapshot.account, w.account, free, trading, user),
            ),
      )

  -- Behind a reconciliation that returned, the gate lets orders through just if the snapshot is
  -- at most as old as allowed, the stream was connected, and the snapshot's account is not blocked
  -- or suspended.
  pub reconcile_opens_iff :
      (snapshot : ReconciliationSnapshot) (s : S) (n maximum_age : ℕ) (now : Datetime)
      → (reconcile o (ok snapshot) s).0 ≡ ok n
      → ((evaluate o maximum_age now (reconcile o (ok snapshot) s).1).allowed ≡ true) ↔ (
          (now.micros ≤ snapshot.reconciled_at.micros + maximum_age)
          × ((o.get_status s).stream_connected ≡ true)
          × (snapshot.account.account_blocked ≡ false)
          × (snapshot.account.trading_blocked ≡ false)
          × (snapshot.account.trade_suspended_by_user ≡ false))
  reconcile_opens_iff snapshot s n maximum_age now h =
      Wins-opens_iff snapshot s _ n maximum_age now
        (Settled-returned snapshot s _ n _ h (reconcile-Settled (ok snapshot) s))

  -- The state is not reconciled, so the gate is shut.
  abbrev pub IsLost : S → Type 0
  IsLost s = (o.get_status s).state ≢ reconciled

  pub lost_shuts :
      (maximum_age : ℕ) (now : Datetime) (s : S)
      → IsLost s
      → (evaluate o maximum_age now s).allowed ≡ false
  lost_shuts maximum_age now s lost = elim (Bool-cases (evaluate o maximum_age now s).allowed) [
    | inl opened ↦ absurd (lost ((evaluate_allows_iff o maximum_age now s).0 opened).0)
    | inr shut ↦ shut
  ]
