-- ===== src/Domain/Assistant.antt =====
-- packages/domain/ai.py: the reports of the assistant's agents and the result of their workflow.
use alpha_desk.Base.{ℕ, Bool, true, false, not, ◌&&◌, Option, String, List}
use alpha_desk.Base.Dict.{Dict}
use alpha_desk.Domain.Time.{Datetime}
use alpha_desk.Domain.Options.{Decimal}

pub record Citation : Type 0 where
  pub source_id : String
  pub claim : String

pub record AiContextReport : Type 0 where
  pub facts : List String
  pub interpretations : List String
  pub assumptions : List String
  pub catalyst_summary : String
  pub signal_consistent : Bool
  pub confidence : Decimal
  pub reasons : List String
  pub citations : List Citation

pub record DevilsAdvocateReport : Type 0 where
  pub alternative_explanations : List String
  pub priced_in_risk : String
  pub extension_risk : String
  pub contradictory_evidence : List String
  pub portfolio_overlap : String
  pub liquidity_concerns : List String
  pub reject_trade : Bool
  pub confidence : Decimal
  pub reasons : List String
  pub citations : List Citation

pub data Recommendation : Type 0 where
  proceed_to_structure_selection no_trade needs_more_data : Recommendation

pub record DecisionReport : Type 0 where
  pub recommendation : Recommendation
  pub confidence : Decimal
  pub facts : List String
  pub interpretations : List String
  pub reasons : List String
  pub citations : List Citation

pub record AiWorkflowResult : Type 0 where
  pub provider : String
  pub model : String
  pub prompt_versions : Dict String
  pub schema_version : ℕ
  pub context : Option AiContextReport
  pub devils_advocate : Option DevilsAdvocateReport
  pub decision : DecisionReport
  pub degraded : Bool
  pub failure_reason : Option String
  pub completed_at : Datetime

abbrev pub asks_for_more : Recommendation → Bool
asks_for_more needs_more_data = true
asks_for_more _ = false

-- The validator `degraded_results_fail_safe`.
pub degraded_results_fail_safe : AiWorkflowResult → Bool
degraded_results_fail_safe result =
    not (result.degraded && not (asks_for_more result.decision.recommendation))
