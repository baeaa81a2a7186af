-- ===== src/Domain/Guardian.antt =====
-- packages/domain/guardian.py: what the guardian observes, and what it reports.
use alpha_desk.Base.{ℕ, Bool, Option, String, List}
use alpha_desk.Domain.Time.{Datetime}
use alpha_desk.Domain.Workflow.{Uuid}

pub data GuardianTrigger : Type 0 where
  manual_kill_switch stale_market_data stream_disconnected state_divergence : GuardianTrigger
  duplicate_order_pattern risk_policy_breach repeated_order_rejections : GuardianTrigger
  abnormal_order_rate uncovered_option_exposure : GuardianTrigger

pub data GuardianState : Type 0 where
  normal halted recovery_pending : GuardianState

pub record GuardianObservation : Type 0 where
  pub observed_at : Datetime
  pub latest_market_data_at : Option Datetime
  pub broker_stream_connected : Bool
  pub broker_reconciled : Bool
  pub divergence_count : ℕ
  pub duplicate_order_patterns : ℕ
  pub policy_breach : Bool
  pub recent_order_rejections : ℕ
  pub orders_last_minute : ℕ
  pub uncovered_short_option_legs : ℕ

pub record GuardianPolicy : Type 0 where
  pub max_market_data_age_seconds : ℕ
  pub max_recent_order_rejections : ℕ
  pub max_orders_per_minute : ℕ

abbrev pub default_guardian_policy : GuardianPolicy
default_guardian_policy = record {
  max_market_data_age_seconds = 15;
  max_recent_order_rejections = 3;
  max_orders_per_minute = 5;
}

pub record GuardianEvaluation : Type 0 where
  pub is_halted : Bool
  pub triggers : List GuardianTrigger
  pub pause_new_intents : Bool
  pub cancel_eligible_open_orders : Bool
  pub require_reconciliation : Bool

pub record GuardianIncident : Type 0 where
  pub incident_id : Uuid
  pub state : GuardianState
  pub triggers : List GuardianTrigger
  pub reason : String
  pub activated_at : Datetime
  pub cleared_at : Option Datetime

pub record GuardianStatus : Type 0 where
  pub state : GuardianState
  pub active_incident : Option GuardianIncident
  pub execution_allowed : Bool
