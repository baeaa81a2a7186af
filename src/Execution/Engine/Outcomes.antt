-- ===== src/Execution/Engine/Outcomes.antt =====
-- What `execute` and `reconcile_uncertain` (packages/execution/engine.py) do on every branch, over
-- any store that keeps intents and any broker.
use alpha_desk.Base.{
  ◌≡◌, ◌≢◌, refl, Bool, true, false, Option, none, some, String, [], ◌∷◌, ◌++◌, arith, Bool-cases,
  inl, inr, str_eq, str_eq_self, if◌then◌else◌, ap,
}
use alpha_desk.Base.Results.{Result, ok, err}
use alpha_desk.Domain.Broker.{BrokerOrder}
use alpha_desk.Domain.Workflow.{OrderIntent}
use alpha_desk.Execution.Engine.{
  ExecutionState, submission_started, submission_uncertain, accepted, is_uncertain, ExecutionError,
  execution_blocked, duplicate_submission, adapter_error, not_uncertain, IntentStore, Broker, Desk,
  submission_of, admit, settle, execute, resolve, reconcile_uncertain,
}
use alpha_desk.Execution.Engine.Stores.{KeepsIntents}

abbrev pub Allowed : Option (Bool × String) → Type 0
Allowed none = Unit
Allowed (some (allowed, _)) = allowed ≡ true

-- The state in which an answer of the broker leaves an intent, and what `execute` makes of it.
abbrev pub state_after : Result String BrokerOrder → ExecutionState
state_after (ok _) = accepted
state_after (err _) = submission_uncertain

abbrev pub raised : {A : Type 0} → Result String A → Result ExecutionError A
raised (ok a) = ok a
raised (err e) = err (adapter_error e)

-- What `execute` raises of an id that is known.
abbrev pub refusal : String → Option (Bool × String) → ExecutionError
refusal id none = duplicate_submission id
refusal id (some (true, _)) = duplicate_submission id
refusal id (some (false, reason)) = execution_blocked reason

module _ {S : Type 0} (o : IntentStore S) (keeps : KeepsIntents o) where
  -- The store shows `state` for the id, and all else as before.
  abbrev pub Shows : String → ExecutionState → S → S → Type 0
  Shows id state s s' =
      (k : String) → o.get_state k s' ≡ (if str_eq id k then some state else o.get_state k s)

  pub admit_new :
      (preflight : Option (Bool × String)) (intent : OrderIntent) (s : S)
      → Allowed preflight
      → o.get_state intent.client_order_id s ≡ none
      → (s' : S) × (admit o preflight intent s ≡ (ok tt, s'))
        × Shows intent.client_order_id submission_started s s'
  unfolding admit
  admit_new none intent s allowed fresh =
      let (done, shows) = keeps.reserve_new intent s fresh in
      ((o.reserve_submission intent s).1, ground arith, shows)
  admit_new (some (true, reason)) intent s allowed fresh =
      let (done, shows) = keeps.reserve_new intent s fresh in
      ((o.reserve_submission intent s).1, ground arith, shows)
  admit_new (some (false, reason)) intent s allowed fresh = cc

  pub admit_known :
      (preflight : Option (Bool × String)) (intent : OrderIntent) (s : S) (state : ExecutionState)
      → Allowed preflight
      → o.get_state intent.client_order_id s ≡ some state
      → admit o preflight intent s ≡ (err (duplicate_submission intent.client_order_id), s)
  unfolding admit
  admit_known none intent s state allowed known = rw (keeps.reserve_known intent s state known)
  admit_known (some (true, reason)) intent s state allowed known =
      rw (keeps.reserve_known intent s state known)
  admit_known (some (false, reason)) intent s state allowed known = cc

  pub settle_known :
      (intent : OrderIntent) (answer : Result String BrokerOrder) (s : S) (state : ExecutionState)
      → o.get_state intent.client_order_id s ≡ some state
      → (s' : S) × (settle o intent answer s ≡ (raised answer, s'))
        × Shows intent.client_order_id (state_after answer) s s'
  unfolding settle
  settle_known intent (ok order) s state known =
      let (s', set, shows) = keeps.set_known intent.client_order_id accepted s state known in
      (s', rw set, shows)
  settle_known intent (err e) s state known =
      let (s', set, shows) =
        keeps.set_known intent.client_order_id submission_uncertain s state known in
      (s', rw set, shows)

  -- Two updates of one id show the second.
  Shows-trans :
      (id : String) (first second : ExecutionState) (s s' s'' : S)
      → Shows id first s s'
      → Shows id second s' s''
      → Shows id second s s''
  Shows-trans id first second s s' s'' a b k = ground (arith, a k, b k)

  abbrev pub Resolved : OrderIntent → S → Result String (Option BrokerOrder) → S → Type 0
  Resolved intent s (ok (some _)) s' = Shows intent.client_order_id accepted s s'
  Resolved intent s _ s' = s' ≡ s

  pub resolve_known :
      (intent : OrderIntent) (answer : Result String (Option BrokerOrder)) (s : S)
      (state : ExecutionState)
      → o.get_state intent.client_order_id s ≡ some state
      → (s' : S) × (resolve o intent answer s ≡ (raised answer, s')) × Resolved intent s answer s'
  resolve_known intent (ok (some order)) s state known =
      let (s', set, shows) = keeps.set_known intent.client_order_id accepted s state known in
      (s', rw set, shows)
  resolve_known intent (ok none) s state known = (s, refl, refl)
  resolve_known intent (err e) s state known = (s, refl, refl)

  uncertain_of :
      (state : Option ExecutionState)
      → is_uncertain state ≡ true
      → state ≡ some submission_uncertain
  uncertain_of none h = cc
  uncertain_of (some submission_uncertain) h = refl
  uncertain_of (some _) h = cc

  module _ (broker : Broker) where
    pub execute_blocked :
        (intent : OrderIntent) (d : Desk S) (reason : String)
        → execute o broker (some (false, reason)) intent d ≡ (err (execution_blocked reason), d)
    unfolding execute admit
    execute_blocked intent d reason = refl

    -- Of an id that the store knows, in whatever state, `execute` changes nothing and hands nothing
    -- to the adapter: it raises the gate's reason if the gate is shut, and else
    -- `DuplicateSubmission`.
    pub execute_refused :
        (preflight : Option (Bool × String)) (intent : OrderIntent) (d : Desk S)
        (state : ExecutionState)
        → o.get_state intent.client_order_id d.store ≡ some state
        → execute o broker preflight intent d ≡ (err (refusal intent.client_order_id preflight), d)
    unfolding execute
    execute_refused none intent d state known = rw (admit_known none intent d.store state tt known)
    execute_refused (some (true, reason)) intent d state known =
        rw (admit_known (some (true, reason)) intent d.store state refl known)
    execute_refused (some (false, reason)) intent d state known = execute_blocked intent d reason

    -- For an id that the store does not know, with the gate open, `execute` hands exactly one
    -- submission of the intent to the adapter, returns or raises what the adapter answers, and
    -- leaves the id accepted, or uncertain if the adapter raised; all other ids are as before.
    pub execute_new :
        (preflight : Option (Bool × String)) (intent : OrderIntent) (d : Desk S)
        → Allowed preflight
        → o.get_state intent.client_order_id d.store ≡ none
        → let answer = broker.submit_order d.submitted (submission_of intent) in
          let (result, d') = execute o broker preflight intent d in
          (result ≡ raised answer)
          × (d'.submitted ≡ d.submitted ++ submission_of intent ∷ [])
          × Shows intent.client_order_id (state_after answer) d.store d'.store
    unfolding execute
    execute_new preflight intent d allowed fresh =
        let answer = broker.submit_order d.submitted (submission_of intent) in
        let (s', admitted, started) = admit_new preflight intent d.store allowed fresh in
        let known : o.get_state intent.client_order_id s' ≡ some submission_started =
          rw (started intent.client_order_id, str_eq_self intent.client_order_id) in
        let (s'', settled, shown) = settle_known intent answer s' submission_started known in
        rw (admitted, settled)
          (
            refl,
            refl,
            Shows-trans intent.client_order_id submission_started _ d.store s' s'' started shown,
          )

    reconcile_uncertain_outcome :
        (intent : OrderIntent) (d : Desk S)
        → let answer = broker.get_order d.submitted intent.client_order_id in
          let (result, d') = reconcile_uncertain o broker intent d in
          (d'.submitted ≡ d.submitted)
          × (o.get_state intent.client_order_id d.store ≡ some submission_uncertain
              → (result ≡ raised answer) × Resolved intent d.store answer d'.store)
          × (o.get_state intent.client_order_id d.store ≢ some submission_uncertain
              → (result ≡ err not_uncertain) × (d' ≡ d))
    unfolding reconcile_uncertain
    reconcile_uncertain_outcome intent d =
        let state = o.get_state intent.client_order_id d.store in
        elim (Bool-cases (is_uncertain state)) [
          | inl uncertain ↦
              let known = uncertain_of state uncertain in
              let answer = broker.get_order d.submitted intent.client_order_id in
              let (s', resolved, shown) =
                resolve_known intent answer d.store submission_uncertain known in
              rw (known, resolved) (refl, λ _. (refl, shown), λ other. absurd (other refl))
          | inr certain ↦ rw certain (refl, λ known. cc (ap is_uncertain known), λ _. (refl, refl))
        ]

    -- `reconcile_uncertain` of an uncertain id returns or raises what the broker answers, without a
    -- submission: the id becomes accepted if the broker has the order, and else the store stays as
    -- it was.
    pub reconcile_uncertain_resolves :
        (intent : OrderIntent) (d : Desk S)
        → o.get_state intent.client_order_id d.store ≡ some submission_uncertain
        → let answer = broker.get_order d.submitted intent.client_order_id in
          let (result, d') = reconcile_uncertain o broker intent d in
          (d'.submitted ≡ d.submitted)
          × (result ≡ raised answer)
          × Resolved intent d.store answer d'.store
    reconcile_uncertain_resolves intent d known =
        let (kept, resolves, _) = reconcile_uncertain_outcome intent d in
        let (result, resolved) = resolves known in (kept, result, resolved)

    -- Of an id in any other state, and of one that the store does not know, it raises and changes
    -- nothing.
    pub reconcile_uncertain_refuses :
        (intent : OrderIntent) (d : Desk S)
        → o.get_state intent.client_order_id d.store ≢ some submission_uncertain
        → reconcile_uncertain o broker intent d ≡ (err not_uncertain, d)
    reconcile_uncertain_refuses intent d other =
        let (_, _, refuses) = reconcile_uncertain_outcome intent d in
        let (result, same) = refuses other in λ i. (result i, same i)
