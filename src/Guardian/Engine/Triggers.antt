-- ===== src/Guardian/Engine/Triggers.antt =====
-- When the guardian of packages/guardian/engine.py halts, and which triggers it reports.
use alpha_desk.Base.{
  ℕ, ◌+◌, ◌*◌, ◌<◌, ◌≤◌, ◌≡◌, ◌↔◌, ◌⊎◌, inl, inr, refl, Bool, true, false, not, ◌&&◌, ◌||◌, Option,
  none, some, List, [], ◌∷◌, ◌++◌, arith, when, any, is_nil, ltb, leb, ◌==◌, Bool-cases,
}
use alpha_desk.Domain.Time.{Datetime, micros_per_second, is_before, is_older_than}
use alpha_desk.Domain.Guardian.{
  GuardianTrigger, manual_kill_switch, stale_market_data, stream_disconnected, state_divergence,
  duplicate_order_pattern, risk_policy_breach, repeated_order_rejections, abnormal_order_rate,
  uncovered_option_exposure, GuardianObservation, GuardianPolicy,
}
use alpha_desk.Guardian.Engine.{is_stale, triggers_of, evaluate}

-- Market data that is there, no younger than the observation, and no older than the policy allows.
abbrev pub Fresh : GuardianPolicy → Datetime → Option Datetime → Type 0
Fresh policy observed none = ⊥
Fresh policy observed (some latest) =
    (latest.micros ≤ observed.micros)
    × (observed.micros ≤ latest.micros + policy.max_market_data_age_seconds * micros_per_second)

-- What is amiss when a trigger fires.
abbrev pub Amiss : GuardianPolicy → GuardianObservation → GuardianTrigger → Type 0
Amiss policy o manual_kill_switch = ⊥
Amiss policy o stale_market_data = ¬ Fresh policy o.observed_at o.latest_market_data_at
Amiss policy o stream_disconnected = o.broker_stream_connected ≡ false
Amiss policy o state_divergence = (o.broker_reconciled ≡ false) ⊎ (0 < o.divergence_count)
Amiss policy o duplicate_order_pattern = 0 < o.duplicate_order_patterns
Amiss policy o risk_policy_breach = o.policy_breach ≡ true
Amiss policy o repeated_order_rejections =
    policy.max_recent_order_rejections ≤ o.recent_order_rejections
Amiss policy o abnormal_order_rate = policy.max_orders_per_minute < o.orders_last_minute
Amiss policy o uncovered_option_exposure = 0 < o.uncovered_short_option_legs

abbrev code : GuardianTrigger → ℕ
code manual_kill_switch = 0
code stale_market_data = 1
code stream_disconnected = 2
code state_divergence = 3
code duplicate_order_pattern = 4
code risk_policy_breach = 5
code repeated_order_rejections = 6
code abnormal_order_rate = 7
code uncovered_option_exposure = 8

-- Whether the trigger is in the list.
abbrev pub reports : GuardianTrigger → List GuardianTrigger → Bool
reports t = any (λ x. code x == code t)

any-append {ℓ} :
    {A : Type ℓ} (p : A → Bool) (xs ys : List A) → any p (xs ++ ys) ≡ (any p xs || any p ys)
any-append p [] ys = refl
any-append p (x ∷ xs) ys = ground (arith, any-append p xs ys)

any-when {ℓ} : {A : Type ℓ} (p : A → Bool) (b : Bool) (x : A) → any p (when b x) ≡ (b && p x)
any-when p true x = ground arith
any-when p false x = refl

and-false : (b : Bool) → (b && false) ≡ false
and-false b = ground arith

and_true : (b : Bool) → (b && true) ≡ b
and_true b = ground arith

or-false : (b : Bool) → (b || false) ≡ b
or-false b = ground arith

ruleset trigger_laws = (any-append, any-when, and-false, and_true, or-false)

-- The trigger is listed exactly if its own test passes.
abbrev test_of : GuardianPolicy → GuardianObservation → GuardianTrigger → Bool
test_of policy o manual_kill_switch = false
test_of policy o stale_market_data = is_stale policy o.observed_at o.latest_market_data_at
test_of policy o stream_disconnected = not o.broker_stream_connected
test_of policy o state_divergence = not o.broker_reconciled || ltb 0 o.divergence_count
test_of policy o duplicate_order_pattern = ltb 0 o.duplicate_order_patterns
test_of policy o risk_policy_breach = o.policy_breach
test_of policy o repeated_order_rejections =
    leb policy.max_recent_order_rejections o.recent_order_rejections
test_of policy o abnormal_order_rate = ltb policy.max_orders_per_minute o.orders_last_minute
test_of policy o uncovered_option_exposure = ltb 0 o.uncovered_short_option_legs

reports-test :
    (policy : GuardianPolicy) (o : GuardianObservation) (t : GuardianTrigger)
    → reports t (triggers_of policy o) ≡ test_of policy o t
unfolding triggers_of
reports-test policy o manual_kill_switch = simp trigger_laws
reports-test policy o stale_market_data = simp trigger_laws
reports-test policy o stream_disconnected = simp trigger_laws
reports-test policy o state_divergence = simp trigger_laws
reports-test policy o duplicate_order_pattern = simp trigger_laws
reports-test policy o risk_policy_breach = simp trigger_laws
reports-test policy o repeated_order_rejections = simp trigger_laws
reports-test policy o abnormal_order_rate = simp trigger_laws
reports-test policy o uncovered_option_exposure = simp trigger_laws

stale_iff :
    (policy : GuardianPolicy) (observed : Datetime) (latest : Option Datetime)
    → (is_stale policy observed latest ≡ true) ↔ (¬ Fresh policy observed latest)
unfolding is_stale
stale_iff policy observed none = (λ _ h. h, λ _. refl)
stale_iff policy observed (some latest) = (
  λ h k. ground arith,
  λ h.
      let test =
        is_before observed latest
        || is_older_than observed latest policy.max_market_data_age_seconds in
      elim (Bool-cases test) [ inl e ↦ e | inr e ↦ absurd (h (ground arith, ground arith)) ],
)

test-Amiss :
    (policy : GuardianPolicy) (o : GuardianObservation) (t : GuardianTrigger)
    → (test_of policy o t ≡ true) ↔ Amiss policy o t
test-Amiss policy o manual_kill_switch = (λ h. cc, λ h. absurd h)
test-Amiss policy o stale_market_data = stale_iff policy o.observed_at o.latest_market_data_at
test-Amiss policy o stream_disconnected = (ground arith, ground arith)
test-Amiss policy o state_divergence = (ground arith, ground arith)
test-Amiss policy o duplicate_order_pattern = (ground arith, ground arith)
test-Amiss policy o risk_policy_breach = (λ h. h, λ h. h)
test-Amiss policy o repeated_order_rejections = (ground arith, ground arith)
test-Amiss policy o abnormal_order_rate = (ground arith, ground arith)
test-Amiss policy o uncovered_option_exposure = (ground arith, ground arith)

-- `evaluate` reports each of the nine triggers exactly if that trigger's condition holds: market
-- data missing, from the future or too old, stream down, broker not reconciled or divergent,
-- duplicates, a breach of the policy, too many rejections, too many orders, uncovered short options;
-- the manual switch is never reported.
pub evaluate-reports_iff :
    (policy : GuardianPolicy) (o : GuardianObservation) (t : GuardianTrigger)
    → (reports t (evaluate policy o).triggers ≡ true) ↔ Amiss policy o t
unfolding evaluate
evaluate-reports_iff policy o t = rw (reports-test policy o t) (test-Amiss policy o t)

first_reported :
    (l : List GuardianTrigger)
    → not (is_nil l) ≡ true
    → (t : GuardianTrigger) × (reports t l ≡ true)
first_reported [] h = cc
first_reported (t ∷ l) h = (t, ground arith)

reports-not-nil :
    (t : GuardianTrigger) (l : List GuardianTrigger) → reports t l ≡ true → not (is_nil l) ≡ true
reports-not-nil t [] h = cc
reports-not-nil t (x ∷ l) h = refl

-- It halts exactly if some trigger's condition holds, and then asks for all of its measures at
-- once: to pause intents, to cancel open orders, and to reconcile; else for none.
pub evaluate_halts_iff :
    (policy : GuardianPolicy) (o : GuardianObservation)
    → let e = evaluate policy o in
      ((e.is_halted ≡ true) ↔ ((t : GuardianTrigger) × Amiss policy o t))
      × (e.pause_new_intents ≡ e.is_halted)
      × (e.cancel_eligible_open_orders ≡ e.is_halted)
      × (e.require_reconciliation ≡ e.is_halted)
unfolding evaluate
evaluate_halts_iff policy o =
    let listed = triggers_of policy o in
    (
      (
        λ h.
            let (t, reported) = first_reported listed h in
            (t, (evaluate-reports_iff policy o t).0 reported),
        λ (t, amiss). reports-not-nil t listed ((evaluate-reports_iff policy o t).1 amiss),
      ),
      refl,
      refl,
      refl,
    )
