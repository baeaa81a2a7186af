-- ===== src/Assistant/Citations.antt =====
-- What `AIWorkflow.run` (packages/ai/workflow.py) may answer.
use alpha_desk.Base.{
  ◌≡◌, ◌⊎◌, inl, inr, refl, ap, Bool, true, false, not, Option, none, some, String, List, all,
  is_nil, not-true,
}
use alpha_desk.Base.Results.{Result, ok, err, bind-ok, require-ok, ok-injective, Result-cases}
use alpha_desk.Domain.Time.{Datetime}
use alpha_desk.Domain.Assistant.{
  Citation, AiContextReport, DevilsAdvocateReport, DecisionReport, needs_more_data,
  AiWorkflowResult,
}
use alpha_desk.Assistant.{
  AiProvider, is_allowed, attempt, or_repaired, with_repair, allowed_source_ids, reports, run,
}

-- There are citations, and all of them name a source of the evidence.
abbrev pub Cited : List String → List Citation → Type 0
Cited ids citations = (is_nil citations ≡ false) × (all (is_allowed ids) citations ≡ true)

-- All three reports are there and cited, or none is, and more data is asked for.
abbrev pub FullyCited : List String → AiWorkflowResult → Type 0
FullyCited ids result =
    (result.degraded ≡ false)
    × ((c : AiContextReport) × (result.context ≡ some c) × Cited ids c.citations)
    × ((d : DevilsAdvocateReport) × (result.devils_advocate ≡ some d) × Cited ids d.citations)
    × Cited ids result.decision.citations

abbrev pub FailSafe : AiWorkflowResult → Type 0
FailSafe result =
    (result.degraded ≡ true)
    × (result.context ≡ none)
    × (result.devils_advocate ≡ none)
    × (result.decision.recommendation ≡ needs_more_data)

repaired-ok :
    {R : Type 0} (first again : Result String R) (r : R)
    → or_repaired first again ≡ ok r
    → (first ≡ ok r) ⊎ (again ≡ ok r)
repaired-ok (ok report) again r h = inl h
repaired-ok (err _) again r h = inr h

module _ {R : Type 0} (citations_of : R → List Citation) (ids : List String)
    (answer : Bool → Result String R) where
  attempt-Cited :
      (repair : Bool) (r : R)
      → attempt citations_of ids answer repair ≡ ok r
      → Cited ids (citations_of r)
  unfolding attempt
  attempt-Cited repair r h =
      let (report, _, h1) = bind-ok (answer repair) _ h in
      let (there, h2) = require-ok (not (is_nil (citations_of report))) "ValueError" _ h1 in
      let (known, h3) = require-ok (all (is_allowed ids) (citations_of report)) "ValueError" _ h2 in
      rw (← ok-injective report r h3) (not-true _ there, known)

  with_repair-Cited :
      (r : R) → with_repair citations_of ids answer ≡ ok r → Cited ids (citations_of r)
  unfolding with_repair
  with_repair-Cited r h =
      elim (repaired-ok (attempt citations_of ids answer false)
        (attempt citations_of ids answer true) r h) [
          | inl first ↦ attempt-Cited false r first
          | inr second ↦ attempt-Cited true r second
        ]

module _ (provider : AiProvider) (ids : List String) where
  reports-Cited :
      (c : AiContextReport) (d : DevilsAdvocateReport) (r : DecisionReport)
      → reports provider ids ≡ ok (c, d, r)
      → Cited ids c.citations × Cited ids d.citations × Cited ids r.citations
  unfolding reports
  reports-Cited c d r h =
      let (context, has_context, h1) =
        bind-ok (with_repair (λ r. r.citations) ids provider.context) _ h in
      let (devil, has_devil, h2) =
        bind-ok
          (with_repair (λ r. r.citations) ids (λ repair. provider.devils_advocate repair context)) _
          h1 in
      let (decision, has_decision, h3) =
        bind-ok
          (with_repair (λ r. r.citations) ids (λ repair. provider.decision repair context devil)) _
          h2 in
      let e = ok-injective (context, devil, decision) (c, d, r) h3 in
      rw (← ap (λ t. t.0) e, ← ap (λ t. t.1) e, ← ap (λ t. t.2) e)
        (
          with_repair-Cited (λ r. r.citations) ids provider.context context has_context,
          with_repair-Cited (λ r. r.citations) ids
              (λ repair. provider.devils_advocate repair context) devil has_devil,
          with_repair-Cited (λ r. r.citations) ids
              (λ repair. provider.decision repair context devil) decision has_decision,
        )

-- `run` always answers, whatever the provider returns or raises: either with three reports, each
-- of which has citations that all name sources of the evidence, or degraded, without a report of
-- the first two agents, and with the recommendation that more data is needed.
pub run_cited_or_safe :
    (provider : AiProvider) (sources : List (Option String)) (now : Datetime)
    → FullyCited (allowed_source_ids sources) (run provider sources now)
      ⊎ FailSafe (run provider sources now)
unfolding run
run_cited_or_safe provider sources now =
    let ids = allowed_source_ids sources in
    elim (Result-cases (reports provider ids)) [
      | inl ((c, d, r), done) ↦
          let (context, devil, decision) = reports-Cited provider ids c d r done in
          rw done (inl (refl, (c, refl, context), (d, refl, devil), decision))
      | inr (e, failed) ↦ rw failed (inr (refl, refl, refl, refl))
    ]
