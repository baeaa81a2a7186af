-- ===== src/Domain/Broker.antt =====
-- packages/domain/broker.py: what the broker reports, and what is submitted to it.
use alpha_desk.Base.{ℕ, Bool, Option, String, List}
use alpha_desk.Domain.Time.{Datetime}
use alpha_desk.Domain.Options.{Decimal}
use alpha_desk.Domain.System.{BrokerState}
use alpha_desk.Domain.Workflow.{OrderSide}

pub record BrokerAccount : Type 0 where
  pub account_id : String
  pub account_number : String
  pub status : String
  pub currency : String
  pub equity : Decimal
  pub cash : Decimal
  pub buying_power : Decimal
  pub options_buying_power : Option Decimal
  pub last_equity : Decimal
  pub trading_blocked : Bool
  pub account_blocked : Bool
  pub trade_suspended_by_user : Bool
  pub as_of : Datetime

pub record BrokerPosition : Type 0 where
  pub asset_id : String
  pub symbol : String
  pub asset_class : String
  pub side : String
  pub quantity : Decimal
  pub quantity_available : Option Decimal
  pub average_entry_price : Decimal
  pub market_value : Option Decimal
  pub cost_basis : Decimal
  pub unrealized_pl : Decimal
  pub current_price : Option Decimal
  pub as_of : Datetime

pub record BrokerOrderLeg : Type 0 where
  pub broker_order_id : String
  pub symbol : String
  pub side : String
  pub quantity : Option Decimal
  pub filled_quantity : Decimal
  pub status : String

pub record BrokerOrder : Type 0 where
  pub broker_order_id : String
  pub client_order_id : String
  pub status : String
  pub asset_class : String
  pub symbol : Option String
  pub side : Option String
  pub order_type : String
  pub order_class : String
  pub time_in_force : String
  pub quantity : Option Decimal
  pub filled_quantity : Decimal
  pub filled_average_price : Option Decimal
  pub limit_price : Option Decimal
  pub submitted_at : Option Datetime
  pub created_at : Datetime
  pub updated_at : Option Datetime
  pub legs : List BrokerOrderLeg

pub record BrokerTradeUpdate : Type 0 where
  pub event : String
  pub order : BrokerOrder
  pub execution_id : Option String
  pub price : Option Decimal
  pub quantity : Option Decimal
  pub position_quantity : Option Decimal
  pub occurred_at : Datetime

pub record ReconciliationSnapshot : Type 0 where
  pub account : BrokerAccount
  pub positions : List BrokerPosition
  pub open_orders : List BrokerOrder
  pub reconciled_at : Datetime

pub record BrokerSyncStatus : Type 0 where
  pub state : BrokerState
  pub last_reconciled_at : Option Datetime
  pub last_stream_event_at : Option Datetime
  pub stream_connected : Bool
  pub generation : ℕ
  pub divergence_count : ℕ
  pub failure_reason : Option String

pub record SubmissionLeg : Type 0 where
  pub symbol : String
  pub side : OrderSide
  pub ratio : ℕ

pub record OrderSubmission : Type 0 where
  pub client_order_id : String
  pub quantity : ℕ
  pub limit_price : Decimal
  pub time_in_force : String
  pub legs : List SubmissionLeg
