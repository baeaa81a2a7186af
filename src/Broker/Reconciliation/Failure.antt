-- ===== src/Broker/Reconciliation/Failure.antt =====
-- packages/broker/reconciliation.py under failures: the tasks of the worker as steps on one store,
-- in any order.
use alpha_desk.Base.{
  ◌≡◌, ◌≢◌, ap, sym, ◌∙◌, inl, inr, Bool, true, false, Option, none, String, List, [], ◌∷◌, ℕ, All,
}
use alpha_desk.Base.Results.{Result, ok, err, Result-cases}
use alpha_desk.Domain.Time.{Datetime}
use alpha_desk.Domain.System.{BrokerState, unknown, reconciling, reconciled}
use alpha_desk.Domain.Broker.{BrokerTradeUpdate, ReconciliationSnapshot}
use alpha_desk.Broker.Projections.{BrokerProjectionStore, Knows, BrokerWins}
use alpha_desk.Broker.Reconciliation.{
  evaluate, begin_reconcile, end_reconcile, apply_updates, consume_trade_updates, close,
}
use alpha_desk.Broker.Reconciliation.Recovery.{IsLost, lost_shuts}

-- The steps between which tasks are interleaved: the two halves of a reconciliation, a change of
-- the stream, one update, and the handler of a lost stream.
pub data Step : Type 0 where
  begins : Step
  ends : Result String ReconciliationSnapshot → Step
  streams : Bool → Step
  updates : BrokerTradeUpdate → Step
  loses : Option String → Step

-- No reconciliation gets an answer of the broker.
abbrev pub IsUnanswered : Step → Type 0
IsUnanswered (ends (ok _)) = ⊥
IsUnanswered _ = Unit

module _ {S : Type 0} (o : BrokerProjectionStore S) where
  abbrev after : S → Result String S → S
  after s (ok s') = s'
  after s (err _) = s

  unfoldable pub take_step : Step → S → S
  take_step begins s = begin_reconcile o s
  take_step (ends answer) s = (end_reconcile o answer s).1
  take_step (streams connected) s = o.set_stream_connected connected s
  take_step (updates update) s = after s (o.apply_trade_update update s)
  take_step (loses reason) s = o.mark_state unknown reason s

  unfoldable pub take_steps : List Step → S → S
  take_steps [] s = s
  take_steps (step ∷ steps) s = take_steps steps (take_step step s)

module _ {S : Type 0} (o : BrokerProjectionStore S) (knows : Knows S)
    (wins : BrokerWins o knows) where
  mark-IsLost :
      (state : BrokerState) (reason : Option String) (s : S)
      → state ≢ reconciled
      → IsLost o knows wins (o.mark_state state reason s)
  mark-IsLost state reason s apart h =
      apart (sym (ap (λ b. b.state) (wins.mark_status state reason s)) ∙ h)

  update-IsLost :
      (update : BrokerTradeUpdate) (s s' : S)
      → o.apply_trade_update update s ≡ ok s'
      → IsLost o knows wins s
      → IsLost o knows wins s'
  update-IsLost update s s' done lost h = lost (sym (wins.update_keeps update s s' done).0 ∙ h)

  stream-IsLost :
      (connected : Bool) (s : S)
      → IsLost o knows wins s
      → IsLost o knows wins (o.set_stream_connected connected s)
  stream-IsLost true s lost h = lost (sym (wins.stream_up s) ∙ h)
  stream-IsLost false s lost h = wins.stream_down s h

  step-IsLost :
      (step : Step) (s : S)
      → IsUnanswered step
      → IsLost o knows wins s
      → IsLost o knows wins (take_step o step s)
  unfolding take_step begin_reconcile end_reconcile
  step-IsLost begins s _ lost = mark-IsLost reconciling none s (λ h. cc)
  step-IsLost (ends (ok _)) s un lost = absurd un
  step-IsLost (ends (err e)) s _ lost = mark-IsLost unknown _ s (λ h. cc)
  step-IsLost (streams connected) s _ lost = stream-IsLost connected s lost
  step-IsLost (updates update) s _ lost = elim (Result-cases (o.apply_trade_update update s)) [
    | inl (s', done) ↦ rw done (update-IsLost update s s' done lost)
    | inr (e, done) ↦ rw done lost
  ]
  step-IsLost (loses reason) s _ lost = mark-IsLost unknown reason s (λ h. cc)

  steps-IsLost :
      (steps : List Step) (s : S)
      → All IsUnanswered steps
      → IsLost o knows wins s
      → IsLost o knows wins (take_steps o steps s)
  unfolding take_steps
  steps-IsLost [] s _ lost = lost
  steps-IsLost (step ∷ steps) s (un, uns) lost =
      steps-IsLost steps (take_step o step s) uns (step-IsLost step s un lost)

  -- Once the stream was lost, the gate stays shut at every time through every interleaving of the
  -- tasks in which no reconciliation gets an answer of the broker, reconnections and further trade
  -- updates included.
  pub lost_stream_shuts :
      (steps : List Step) (s : S) (maximum_age : ℕ) (now : Datetime)
      → All IsUnanswered steps
      → (evaluate o maximum_age now (take_steps o steps (o.set_stream_connected false s))).allowed
        ≡ false
  lost_stream_shuts steps s maximum_age now un =
      lost_shuts o knows wins maximum_age now _ (steps-IsLost steps _ un (wins.stream_down s))

  close-IsLost : (p : Result String (Unit {0}) × S) → IsLost o knows wins (close o p).1
  close-IsLost (ok _, s) = wins.stream_down s
  close-IsLost (err e, s) = wins.stream_down _

  -- However `consume_trade_updates` ends, the gate is shut at every time behind it.
  pub consume_trade_updates_shuts :
      (us : List BrokerTradeUpdate) (ending : Option String) (s : S) (maximum_age : ℕ)
      (now : Datetime)
      → (evaluate o maximum_age now (consume_trade_updates o us ending s).1).allowed ≡ false
  unfolding consume_trade_updates
  consume_trade_updates_shuts us ending s maximum_age now =
      lost_shuts o knows wins maximum_age now _
        (close-IsLost (apply_updates o us ending (o.set_stream_connected true s)))
