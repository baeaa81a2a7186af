-- ===== src/Assistant/Examples.antt =====
-- A run of packages/ai/workflow.py in which the second agent cites an unknown source twice.
use alpha_desk.Base.{◌≡◌, ◌⊎◌, refl, true, false, none, some, String, List, [], ◌∷◌}
use alpha_desk.Base.Integers.{pos}
use alpha_desk.Base.Results.{ok}
use alpha_desk.Domain.Assistant.{
  Citation, AiContextReport, DevilsAdvocateReport, proceed_to_structure_selection,
}
use alpha_desk.Assistant.{AiProvider, allowed_source_ids, run, reports, attempt, with_repair}
use alpha_desk.Assistant.Citations.{FullyCited, FailSafe, run_cited_or_safe}
use alpha_desk.Samples.{noon}

abbrev cites : String → List Citation
cites id = record { source_id = id; claim = "Earnings beat." } ∷ []

abbrev context : AiContextReport
context = record {
  facts = [];
  interpretations = [];
  assumptions = [];
  catalyst_summary = "";
  signal_consistent = true;
  confidence = pos 8_000;
  reasons = "Consistent." ∷ [];
  citations = cites "news-1";
}

abbrev devil : String → DevilsAdvocateReport
devil id = record {
  alternative_explanations = [];
  priced_in_risk = "";
  extension_risk = "";
  contradictory_evidence = [];
  portfolio_overlap = "";
  liquidity_concerns = [];
  reject_trade = false;
  confidence = pos 5_000;
  reasons = "None." ∷ [];
  citations = cites id;
}

abbrev provider : AiProvider
provider = record {
  name = "fixture";
  model = "deterministic-v1";
  context = λ repair. ok context;
  devils_advocate = λ repair c. ok (devil "invented");
  decision = λ repair c d. ok (record {
    recommendation = proceed_to_structure_selection;
    confidence = pos 7_000;
    facts = [];
    interpretations = [];
    reasons = "Go." ∷ [];
    citations = cites "news-1";
  });
}

fails_safe : (run provider (some "news-1" ∷ none ∷ []) (noon 3)).failure_reason ≡ some "ValueError"
unfolding run reports attempt with_repair
fails_safe = refl

run_cited_or_safe_example :
    FullyCited
      (allowed_source_ids (some "news-1" ∷ none ∷ []))
      (run provider (some "news-1" ∷ none ∷ []) (noon 3))
    ⊎ FailSafe (run provider (some "news-1" ∷ none ∷ []) (noon 3))
run_cited_or_safe_example = run_cited_or_safe provider (some "news-1" ∷ none ∷ []) (noon 3)
