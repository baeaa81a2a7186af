-- ===== src/Execution/Engine/Interleaving.antt =====
-- Tasks that run `execute` and `reconcile_uncertain` (packages/execution/engine.py) at the same
-- time, in any order of their phases and with any answers of the broker. Between the awaits a
-- phase is atomic: the reservation by the store's lock or by the database's unique constraint.
use alpha_desk.Base.{
  ℕ, ◌+◌, ◌≤◌, ◌≡◌, refl, Bool, true, false, Option, none, some, String, List, [], ◌∷◌, ◌++◌, arith,
  str_eq, str_eq_iff, str_eq_self, if◌then◌else◌, Option-cases, inl, inr, Bool-cases,
}
use alpha_desk.Base.Results.{Result, ok, err}
use alpha_desk.Domain.Broker.{BrokerOrder, OrderSubmission}
use alpha_desk.Domain.Workflow.{OrderIntent}
use alpha_desk.Execution.Engine.{
  ExecutionState, submission_started, submission_uncertain, ExecutionError, IntentStore,
  submission_of, admit, settle, resolve,
}
use alpha_desk.Execution.Engine.Stores.{KeepsIntents}
use alpha_desk.Execution.Engine.Outcomes.{
  Allowed, Shows, admit_new, admit_known, settle_known, resolve_known,
}

-- How many of the items have the given id.
abbrev pub count_by {ℓ} : {A : Type ℓ} → (A → String) → String → List A → ℕ
count_by f k [] = 0
count_by f k (x ∷ xs) = (if str_eq (f x) k then 1 else 0) + count_by f k xs

count_by-append {ℓ} :
    {A : Type ℓ} (f : A → String) (k : String) (xs ys : List A)
    → count_by f k (xs ++ ys) ≡ count_by f k xs + count_by f k ys
count_by-append f k [] ys = omega arith
count_by-append f k (x ∷ xs) ys = omega (arith, count_by-append f k xs ys)

count_by-middle {ℓ} :
    {A : Type ℓ} (f : A → String) (k : String) (l xs : List A) (x : A) (ys : List A)
    → l ≡ xs ++ x ∷ ys
    → count_by f k l ≡ (if str_eq (f x) k then 1 else 0) + count_by f k (xs ++ ys)
count_by-middle f k l xs x ys e =
    rw (e, count_by-append f k xs (x ∷ ys), count_by-append f k xs ys) (omega arith)

abbrev pub Answer : Type 0
Answer = OrderIntent × Result String BrokerOrder

abbrev pub answer_id : Answer → String
answer_id (intent, _) = intent.client_order_id

-- The store, the intents whose submission has been reserved and not yet sent, the answers that are
-- not yet recorded, and all submissions so far.
pub record Shared (S : Type 0) : Type 0 where
  pub store : S
  pub in_flight : List OrderIntent
  pub answered : List Answer
  pub submitted : List OrderSubmission

abbrev pub flights : {S : Type 0} → String → Shared S → ℕ
flights k c = count_by (λ i. i.client_order_id) k c.in_flight

abbrev pub answers : {S : Type 0} → String → Shared S → ℕ
answers k c = count_by answer_id k c.answered

abbrev pub submissions : {S : Type 0} → String → Shared S → ℕ
submissions k c = count_by (λ (x : OrderSubmission). x.client_order_id) k c.submitted

module _ {S : Type 0} (o : IntentStore S) where
  pub data Step (c : Shared S) : Shared S → Type 0 where
    admitted :
        (preflight : Option (Bool × String)) (intent : OrderIntent) (s : S)
        → admit o preflight intent c.store ≡ (ok tt, s)
        → Step c (record c { store = s; in_flight = intent ∷ c.in_flight })
    refused :
        (preflight : Option (Bool × String)) (intent : OrderIntent) (e : ExecutionError) (s : S)
        → admit o preflight intent c.store ≡ (err e, s)
        → Step c (record c { store = s })
    sent :
        (before after : List OrderIntent) (intent : OrderIntent)
        (answer : Result String BrokerOrder)
        → c.in_flight ≡ before ++ intent ∷ after
        → Step c (record c {
          in_flight = before ++ after;
          answered = (intent, answer) ∷ c.answered;
          submitted = c.submitted ++ submission_of intent ∷ [];
        })
    settled :
        (before after : List Answer) (intent : OrderIntent) (answer : Result String BrokerOrder)
        → c.answered ≡ before ++ (intent, answer) ∷ after
        → Step c
            (record c { store = (settle o intent answer c.store).1; answered = before ++ after })
    resolved :
        (intent : OrderIntent) (answer : Result String (Option BrokerOrder))
        → o.get_state intent.client_order_id c.store ≡ some submission_uncertain
        → Step c (record c { store = (resolve o intent answer c.store).1 })

  pub data Reach (start : Shared S) : Shared S → Type 0 where
    here : Reach start start
    next : {c c' : Shared S} → Reach start c → Step c c' → Reach start c'

  -- Each id is in flight or submitted at most once, and then the store knows it.
  pub record IsOnce (c : Shared S) : Type 0 where
    pub once : (k : String) → flights k c + submissions k c ≤ 1
    pub known :
        (k : String)
        → o.get_state k c.store ≡ none
        → flights k c + submissions k c + answers k c ≡ 0

  module _ (keeps : KeepsIntents o) where
    Admitted : OrderIntent → S → Result ExecutionError (Unit {0}) × S → Type 0
    Admitted intent s (ok _, s') =
        (o.get_state intent.client_order_id s ≡ none)
        × Shows o keeps intent.client_order_id submission_started s s'
    Admitted intent s (err _, s') = s' ≡ s

    Allowed-Admitted :
        (preflight : Option (Bool × String)) (intent : OrderIntent) (s : S)
        → Allowed preflight
        → Admitted intent s (admit o preflight intent s)
    unfolding Admitted
    Allowed-Admitted preflight intent s allowed =
        elim (Option-cases (o.get_state intent.client_order_id s)) [
          | inl fresh ↦
              let (s', made, shows) = admit_new o keeps preflight intent s allowed fresh in
              rw made (fresh, shows)
          | inr (state, known) ↦
              rw (admit_known o keeps preflight intent s state allowed known) refl
        ]

    -- The reservation succeeds for new ids only; otherwise the store stays.
    admit-Admitted :
        (preflight : Option (Bool × String)) (intent : OrderIntent) (s : S)
        → Admitted intent s (admit o preflight intent s)
    unfolding admit Admitted
    admit-Admitted none intent s = Allowed-Admitted none intent s tt
    admit-Admitted (some (true, reason)) intent s =
        Allowed-Admitted (some (true, reason)) intent s refl
    admit-Admitted (some (false, reason)) intent s = refl

    Shows-none :
        (id : String) (state : ExecutionState) (s s' : S) (k : String)
        → Shows o keeps id state s s'
        → o.get_state k s' ≡ none
        → (o.get_state k s ≡ none) × (str_eq id k ≡ false)
    Shows-none id state s s' k shows h = let at_k = shows k in (ground arith, ground arith)

    settled_keeps :
        (c : Shared S) (before after : List Answer) (intent : OrderIntent)
        (answer : Result String BrokerOrder) (k : String)
        → IsOnce c
        → c.answered ≡ before ++ (intent, answer) ∷ after
        → o.get_state k (settle o intent answer c.store).1 ≡ none
        → o.get_state k c.store ≡ none
    settled_keeps c before after intent answer k v h e =
        elim (Option-cases (o.get_state intent.client_order_id c.store)) [
          | inl unknown ↦
              let none_of = v.known intent.client_order_id unknown in
              let some_of =
                count_by-middle answer_id intent.client_order_id c.answered before (intent, answer)
                  after h in
              let same = str_eq_self intent.client_order_id in absurd (ground arith)
          | inr (state, known) ↦
              let (s', done, shows) = settle_known o keeps intent answer c.store state known in
              (Shows-none intent.client_order_id _ c.store s' k shows (rw done at e)).0
        ]

    resolved_keeps :
        (intent : OrderIntent) (answer : Result String (Option BrokerOrder)) (s : S) (k : String)
        → o.get_state intent.client_order_id s ≡ some submission_uncertain
        → o.get_state k (resolve o intent answer s).1 ≡ none
        → o.get_state k s ≡ none
    resolved_keeps intent (ok (some order)) s k known e =
        let (s', done, shows) = resolve_known o keeps intent (ok (some order)) s _ known in
        (Shows-none intent.client_order_id _ s s' k shows (rw done at e)).0
    resolved_keeps intent (ok none) s k known e = e
    resolved_keeps intent (err x) s k known e = e

    Step-IsOnce : {c c' : Shared S} → Step c c' → IsOnce c → IsOnce c'
    unfolding submission_of Admitted
    Step-IsOnce {c} (admitted preflight intent s h) v =
        let outcome : Admitted intent c.store (ok tt, s) =
          rw h at (admit-Admitted preflight intent c.store) in
        let (fresh, shows) = outcome in
        record {
          once = λ k.
              let same = str_eq_iff intent.client_order_id k in
              let before = v.once k in
              elim (Bool-cases (str_eq intent.client_order_id k)) [
                | inl e ↦
                    let unknown : o.get_state k c.store ≡ none = rw (← same.0 e) fresh in
                    rw e (omega (arith, v.known k unknown))
                | inr e ↦ rw e (omega arith)
              ];
          known = λ k e.
              let (before, other) =
                Shows-none intent.client_order_id submission_started c.store s k shows e in
              rw other (omega (arith, v.known k before));
        }
    Step-IsOnce {c} (refused preflight intent e s h) v =
        let outcome : Admitted intent c.store (err e, s) =
          rw h at (admit-Admitted preflight intent c.store) in
        let same : s ≡ c.store = outcome in
        record { once = v.once; known = λ k unknown. v.known k (rw same at unknown) }
    Step-IsOnce {c} (sent before after intent answer h) v =
        let gone = λ (k : String).
          count_by-middle (λ (i : OrderIntent). i.client_order_id) k c.in_flight before intent after
            h in
        let added = λ (k : String).
          count_by-append (λ (x : OrderSubmission). x.client_order_id) k c.submitted
            (submission_of intent ∷ []) in
        record {
          once = λ k. omega (arith, v.once k, gone k, added k);
          known = λ k e. omega (arith, v.known k e, gone k, added k);
        }
    Step-IsOnce {c} (settled before after intent answer h) v = record {
      once = v.once;
      known = λ k e. omega (
        arith,
        v.known k (settled_keeps c before after intent answer k v h e),
        count_by-middle answer_id k c.answered before (intent, answer) after h,
      );
    }
    Step-IsOnce {c} (resolved intent answer h) v = record {
      once = v.once;
      known = λ k e. v.known k (resolved_keeps intent answer c.store k h e);
    }

    pub Reach-IsOnce : {c c' : Shared S} → Reach c c' → IsOnce c → IsOnce c'
    Reach-IsOnce here v = v
    Reach-IsOnce (next r st) v = Step-IsOnce st (Reach-IsOnce r v)

    -- However the phases of any number of `execute` and `reconcile_uncertain` tasks interleave, and
    -- whatever the broker answers, from a state in which nothing is in flight and every id that was
    -- submitted is known to the store and was submitted once, no client order id is ever handed to
    -- the adapter twice.
    pub submitted_at_most_once :
        (start : Shared S) {c : Shared S} (k : String)
        → IsOnce start
        → Reach start c
        → submissions k c ≤ 1
    submitted_at_most_once start k v r = omega (arith, (Reach-IsOnce r v).once k)
