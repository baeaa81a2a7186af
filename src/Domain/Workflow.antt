-- ===== src/Domain/Workflow.antt =====
-- packages/domain/workflow.py: the stages from a signal to an order intent.
use alpha_desk.Base.Dict.{Dict}
pub use alpha_desk.Base.Texts.{◌⧺◌}
use alpha_desk.Base.{◌*◌, ℕ, Bool, String, List, [], ◌∷◌, str_eq, map}
use alpha_desk.Base.Integers.{pos, ◌≤ℤ◌, neg}
use alpha_desk.Domain.Time.{Datetime}
use alpha_desk.Domain.Options.{Decimal, OptionStructure}
use alpha_desk.Domain.Quotient.{Quotient}

-- A UUID is its text.
abbrev pub Uuid : Type 0
Uuid = String

pub data Direction : Type 0 where
  bullish bearish : Direction

pub record CatalystFeatures : Type 0 where
  pub catalyst_confidence : Decimal
  pub sentiment : Decimal
  pub relative_volume : Decimal
  pub price_momentum : Decimal
  pub gap_percent : Decimal
  pub market_confirmation : Decimal
  pub sector_confirmation : Decimal
  pub liquidity_score : Decimal

-- The bounds of the fields, where `unit` is the decimal 1.
pub record FeaturesIsValid (unit : ℕ) (f : CatalystFeatures) : Type 0 where
  pub confidence_low : pos 0 ≤ℤ f.catalyst_confidence
  pub confidence_high : f.catalyst_confidence ≤ℤ pos unit
  pub sentiment_low : neg (pos unit) ≤ℤ f.sentiment
  pub sentiment_high : f.sentiment ≤ℤ pos unit
  pub volume_low : pos 0 ≤ℤ f.relative_volume
  pub momentum_low : neg (pos unit) ≤ℤ f.price_momentum
  pub momentum_high : f.price_momentum ≤ℤ pos unit
  pub market_low : neg (pos unit) ≤ℤ f.market_confirmation
  pub market_high : f.market_confirmation ≤ℤ pos unit
  pub sector_low : neg (pos unit) ≤ℤ f.sector_confirmation
  pub sector_high : f.sector_confirmation ≤ℤ pos unit
  pub liquidity_low : pos 0 ≤ℤ f.liquidity_score
  pub liquidity_high : f.liquidity_score ≤ℤ pos unit

pub record Signal : Type 0 where
  pub signal_id : Uuid
  pub symbol : String
  pub strategy_family : String
  pub observed_at : Datetime
  pub features : CatalystFeatures
  pub score : Decimal
  pub source_versions : Dict String

-- The bounds of the fields of a signal.
pub record SignalIsValid (unit : ℕ) (signal : Signal) : Type 0 where
  pub features_valid : FeaturesIsValid unit signal.features
  pub score_low : pos 0 ≤ℤ signal.score
  pub score_high : signal.score ≤ℤ pos (100 * unit)

-- Both windows are in microseconds.
pub record TradeIdea : Type 0 where
  pub trade_idea_id : Uuid
  pub signal_id : Uuid
  pub symbol : String
  pub direction : Direction
  pub thesis : String
  pub holding_horizon : ℕ
  pub entry_window : ℕ
  pub exit_logic : String
  pub confidence : Quotient

pub record NoTrade : Type 0 where
  pub signal_id : Uuid
  pub reason_codes : List String
  pub created_at : Datetime

pub record RankedCandidate : Type 0 where
  pub structure_id : Uuid
  pub trade_idea_id : Uuid
  pub structure : OptionStructure
  pub rank_score : Decimal
  pub rank_components : List (String × Quotient)

pub record RiskCheck : Type 0 where
  pub name : String
  pub passed : Bool
  pub detail : String

pub data RiskDecisionValue : Type 0 where
  approve reject : RiskDecisionValue

pub record RiskDecision : Type 0 where
  pub risk_decision_id : Uuid
  pub structure_id : Uuid
  pub decision : RiskDecisionValue
  pub checks : List RiskCheck
  pub risk_budget_used : Quotient
  pub calculated_max_loss : Decimal
  pub created_at : Datetime

-- `Literal["buy", "sell"]`
pub data OrderSide : Type 0 where
  buy sell : OrderSide

pub record IntentLeg : Type 0 where
  pub symbol : String
  pub side : OrderSide
  pub ratio : ℕ

pub record OrderIntent : Type 0 where
  pub order_intent_id : Uuid
  pub client_order_id : String
  pub risk_decision_id : Uuid
  pub legs : List IntentLeg
  pub quantity : ℕ
  pub limit_price : Decimal
  pub time_in_force : String
  pub execution_policy : String
  pub created_at : Datetime

-- How Python writes an int and a normalized decimal, and the first 32 hexadecimal digits of the
-- SHA-256 of a text. The code relies on nothing about them but that they are functions.
pub record Texts : Type 0 where
  pub int_text : ℕ → String
  pub decimal_text : Decimal → String
  pub digest : String → String

-- `separator.join(parts)`
abbrev pub join : String → List String → String
join separator [] = ""
join separator (s ∷ []) = s
join separator (s ∷ t ∷ r) = s ⧺ separator ⧺ join separator (t ∷ r)

abbrev pub side_text : OrderSide → String
side_text buy = "buy"
side_text sell = "sell"

module _ (texts : Texts) where
  abbrev canonical_leg : IntentLeg → String
  canonical_leg leg = leg.symbol ⧺ ":" ⧺ side_text leg.side ⧺ ":" ⧺ texts.int_text leg.ratio

  pub stable_client_order_id : Uuid → List IntentLeg → ℕ → Decimal → String → String → String
  stable_client_order_id decision legs quantity price time_in_force policy =
      "ad-"
      ⧺ texts.digest (
          join "|" (
            decision
            ∷ join "," (map canonical_leg legs)
            ∷ texts.int_text quantity
            ∷ texts.decimal_text price
            ∷ time_in_force
            ∷ policy
            ∷ []))

  -- The validator of `OrderIntent`.
  unfoldable pub validate_identifier : OrderIntent → Bool
  validate_identifier intent = str_eq intent.client_order_id (
      stable_client_order_id intent.risk_decision_id intent.legs intent.quantity intent.limit_price
        intent.time_in_force intent.execution_policy)
