-- ===== src/Connected/Records.antt =====
-- packages/connected/opportunities.py: its results and rows, what it raises, and what it is made of.
use alpha_desk.Base.{ℕ, Bool, Option, String, List}
use alpha_desk.Base.Results.{Result, ok, err}
use alpha_desk.Domain.Time.{Datetime, Date}
use alpha_desk.Domain.Quotient.{Quotient}
use alpha_desk.Domain.Options.{Decimal, OptionContract}
use alpha_desk.Domain.Workflow.{
  Uuid, CatalystFeatures, Signal, TradeIdea, RankedCandidate, RiskDecision, OrderIntent, Texts,
}
use alpha_desk.Options.Liquidity.{NaiveTime}
use alpha_desk.Options.Engine.{InvalidOptionStructure}
use alpha_desk.Strategy.Volatility.{DivisionByZero}
use alpha_desk.Broker.Projections.{BrokerProjectionStore}
use alpha_desk.Execution.Intents.{IntentError}

-- What `analyze` raises, and what the parts that it calls raise.
pub data AnalysisError : Type 0 where
  invalid_symbol index_error validation_error : AnalysisError
  source_failed : String → AnalysisError
  naive_time : NaiveTime → AnalysisError
  invalid_structure : InvalidOptionStructure → AnalysisError
  division : DivisionByZero → AnalysisError
  refused_intent : IntentError → AnalysisError

abbrev pub raised : {E A : Type 0} → (E → AnalysisError) → Result E A → Result AnalysisError A
raised wrap (ok a) = ok a
raised wrap (err e) = err (wrap e)

pub record ConnectedAnalysis : Type 0 where
  pub opportunity_id : Uuid
  pub scan_run_id : Option Uuid
  pub symbol : String
  pub disposition : String
  pub source : String
  pub observed_at : Datetime
  pub expires_at : Datetime
  pub signal : Signal
  pub trade_idea : Option TradeIdea
  pub candidate : Option RankedCandidate
  pub risk_decision : Option RiskDecision
  pub order_intent : Option OrderIntent
  pub reason_codes : List String

-- The row of a result; the payload is the result itself.
pub record ConnectedOpportunity : Type 0 where
  pub opportunity_id : Uuid
  pub workspace_id : Uuid
  pub scan_run_id : Option Uuid
  pub symbol : String
  pub state : String
  pub source : String
  pub payload : ConnectedAnalysis
  pub observed_at : Datetime
  pub expires_at : Datetime
  pub created_at : Datetime

pub record OptionChainQuery : Type 0 where
  pub underlying_symbol : String
  pub expiration_date_gte : Date
  pub expiration_date_lte : Date
  pub strike_price_gte : Quotient
  pub strike_price_lte : Quotient

-- What `uuid4()` answers and the time is read at. `today` is `date.today()`.
pub record Drawn : Type 0 where
  pub signal_id : Uuid
  pub trade_idea_id : Uuid
  pub opportunity_id : Uuid
  pub structure_id : ℕ → Uuid
  pub risk_decision_id : Uuid
  pub order_intent_id : Uuid
  pub evaluated_at : Datetime
  pub stored_at : Datetime
  pub today : Date

-- The answers of the vendor: `_features`, and `get_chain`.
pub record Market : Type 0 where
  pub features : String → Result String (CatalystFeatures × Decimal × Datetime)
  pub get_chain : OptionChainQuery → Result String (List OptionContract)

-- What the service is made of: its store of the broker's state, its workspace, the scan that it runs
-- in, and the texts of numbers and the order of identifiers that the parts use.
pub record Service (S : Type 0) : Type 0 where
  pub projections : BrokerProjectionStore S
  pub market : Market
  pub workspace : Uuid
  pub scan_run : Option Uuid
  pub drawn : Drawn
  pub texts : Texts
  pub show : Decimal → String
  pub id_leq : String → String → Bool
