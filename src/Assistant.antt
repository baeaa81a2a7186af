-- ===== src/Assistant.antt =====
-- packages/ai/workflow.py: three agents in a row, each with one repair, and the answer when one of
-- them fails. The provider's answers are functions of what an agent is asked; of exceptions only
-- the class name matters.
pub mod Citations
mod Examples
use alpha_desk.Base.{
  ℕ, Bool, true, false, not, ◌||◌, Option, none, some, String, List, [], ◌∷◌, any, all, keep,
  is_nil, str_eq, if◌then◌else◌,
}
use alpha_desk.Base.Dict.{Dict}
use alpha_desk.Base.Integers.{pos}
use alpha_desk.Base.Results.{Result, ok, err, ◌>>=◌, ◌>>◌, require}
use alpha_desk.Domain.Time.{Datetime}
use alpha_desk.Domain.Assistant.{
  Citation, AiContextReport, DevilsAdvocateReport, DecisionReport, Recommendation, needs_more_data,
  AiWorkflowResult,
}

-- `AIProvider`, by agent: the flag tells whether the instructions ask for a repair.
pub record AiProvider : Type 0 where
  pub name : String
  pub model : String
  pub context : Bool → Result String AiContextReport
  pub devils_advocate : Bool → AiContextReport → Result String DevilsAdvocateReport
  pub decision : Bool → AiContextReport → DevilsAdvocateReport → Result String DecisionReport

abbrev pub is_allowed : List String → Citation → Bool
is_allowed ids citation = any (λ id. str_eq id citation.source_id) ids

abbrev pub or_repaired : {R : Type 0} → Result String R → Result String R → Result String R
or_repaired (ok report) _ = ok report
or_repaired (err _) again = again

module _ {R : Type 0} (citations_of : R → List Citation) (ids : List String)
    (answer : Bool → Result String R) where
  -- One attempt: an answer without citations, or with an unknown source, is a `ValueError`.
  unfoldable pub attempt : Bool → Result String R
  attempt repair = do
    report ← answer repair
    require (not (is_nil (citations_of report))) "ValueError"
    require (all (is_allowed ids) (citations_of report)) "ValueError"
    ok report

  -- `_with_repair`: the exception of the second attempt is raised.
  unfoldable pub with_repair : Result String R
  with_repair = or_repaired (attempt false) (attempt true)

-- The identifiers of the evidence's sources, where there is one that is not empty.
abbrev pub allowed_source_ids : List (Option String) → List String
allowed_source_ids [] = []
allowed_source_ids (none ∷ sources) = allowed_source_ids sources
allowed_source_ids (some id ∷ sources) =
    let rest = allowed_source_ids sources in if str_eq id "" then rest else id ∷ rest

abbrev versions : Dict String
versions =
    ("context", "ai-context-v1")
    ∷ ("devils_advocate", "devils-advocate-v1")
    ∷ ("decision", "decision-composer-v1")
    ∷ []

abbrev fallback : DecisionReport
fallback = record {
  recommendation = needs_more_data;
  confidence = pos 0;
  facts = [];
  interpretations = [];
  reasons = "AI workflow unavailable; deterministic systems remain authoritative." ∷ [];
  citations = [];
}

module _ (provider : AiProvider) (ids : List String) where
  -- The three agents, of which each sees the reports before it.
  unfoldable pub reports : Result String (AiContextReport × DevilsAdvocateReport × DecisionReport)
  reports = do
    context ← with_repair (λ r. r.citations) ids provider.context
    devil ← with_repair (λ r. r.citations) ids (λ repair. provider.devils_advocate repair context)
    decision ← with_repair (λ r. r.citations) ids (λ repair. provider.decision repair context devil)
    ok (context, devil, decision)

  abbrev result_of :
      Datetime
      → Result String (AiContextReport × DevilsAdvocateReport × DecisionReport)
      → AiWorkflowResult
  result_of now (ok (context, devil, decision)) = record {
    provider = provider.name;
    model = provider.model;
    prompt_versions = versions;
    schema_version = 1;
    context = some context;
    devils_advocate = some devil;
    decision = decision;
    degraded = false;
    failure_reason = none;
    completed_at = now;
  }
  result_of now (err e) = record {
    provider = provider.name;
    model = provider.model;
    prompt_versions = versions;
    schema_version = 1;
    context = none;
    devils_advocate = none;
    decision = fallback;
    degraded = true;
    failure_reason = some e;
    completed_at = now;
  }

-- `AIWorkflow.run`
pub run : AiProvider → List (Option String) → Datetime → AiWorkflowResult
run provider sources now =
    let ids = allowed_source_ids sources in result_of provider ids now (reports provider ids)
