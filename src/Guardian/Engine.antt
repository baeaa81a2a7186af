-- ===== src/Guardian/Engine.antt =====
-- packages/guardian/engine.py: `GuardianEngine.evaluate`.
pub mod Triggers
use alpha_desk.Base.{
  ℕ, Bool, true, false, not, ◌||◌, Option, none, some, List, [], ◌∷◌, ◌++◌, when, is_nil, ltb, leb,
}
use alpha_desk.Domain.Time.{Datetime, is_before, is_older_than}
use alpha_desk.Domain.Guardian.{
  GuardianTrigger, stale_market_data, stream_disconnected, state_divergence,
  duplicate_order_pattern, risk_policy_breach, repeated_order_rejections, abnormal_order_rate,
  uncovered_option_exposure, GuardianObservation, GuardianPolicy, GuardianEvaluation,
}

-- Whether the latest market data is missing, from the future, or too old.
unfoldable pub is_stale : GuardianPolicy → Datetime → Option Datetime → Bool
is_stale policy observed none = true
is_stale policy observed (some latest) =
    is_before observed latest || is_older_than observed latest policy.max_market_data_age_seconds

-- The list of triggers, in the order in which they are appended.
unfoldable pub triggers_of : GuardianPolicy → GuardianObservation → List GuardianTrigger
triggers_of policy o =
    when (is_stale policy o.observed_at o.latest_market_data_at) stale_market_data
    ++ (when (not o.broker_stream_connected) stream_disconnected
        ++ (when (not o.broker_reconciled || ltb 0 o.divergence_count) state_divergence
            ++ (when (ltb 0 o.duplicate_order_patterns) duplicate_order_pattern
                ++ (when o.policy_breach risk_policy_breach
                    ++ (when (leb policy.max_recent_order_rejections o.recent_order_rejections)
                          repeated_order_rejections
                        ++ (when (ltb policy.max_orders_per_minute o.orders_last_minute)
                              abnormal_order_rate
                            ++ when (ltb 0 o.uncovered_short_option_legs)
                                uncovered_option_exposure))))))

pub evaluate : GuardianPolicy → GuardianObservation → GuardianEvaluation
evaluate policy observation =
    let triggers = triggers_of policy observation in
    let halt = not (is_nil triggers) in
    record {
      is_halted = halt;
      triggers = triggers;
      pause_new_intents = halt;
      cancel_eligible_open_orders = halt;
      require_reconciliation = halt;
    }
