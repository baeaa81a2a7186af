-- ===== src/Connected/Opportunities/Stages.antt =====
-- What each stage of `ConnectedOpportunityService.analyze` (packages/connected/opportunities.py) has
-- passed when a result with an order intent comes out of it.
use alpha_desk.Base.{
  ℕ, ◌≡◌, refl, ap, sym, ◌∙◌, Bool, true, false, not, Option, none, some, List, [], ◌∷◌, length,
  ltb, if◌then◌else◌, any,
}
use alpha_desk.Base.Integers.{pos}
use alpha_desk.Base.Results.{
  Result, ok, err, ◌>>=◌, ◌>>◌, require, bind-ok, require-ok, ok-injective,
}
use alpha_desk.Domain.Options.{Decimal, OptionContract, OptionStructure}
use alpha_desk.Domain.Workflow.{Signal, TradeIdea, RankedCandidate, RiskDecision, OrderIntent}
use alpha_desk.Domain.Broker.{BrokerAccount}
use alpha_desk.Options.Engine.{build_structure}
use alpha_desk.Strategy.Ranking.{
  rank_candidates, is_wanted, divides_by_zero, candidate_leq, candidates_of,
}
use alpha_desk.Strategy.Volatility.{division_by_zero}
use alpha_desk.Base.Sorting.{order_by}
use alpha_desk.Execution.Intents.{IntentError, create_order_intent, is_approve}
use alpha_desk.Connected.Records.{
  AnalysisError, raised, refused_intent, invalid_structure, division, validation_error, Service,
  ConnectedAnalysis,
}
use alpha_desk.Connected.Selection.{choose_legs, vertical_type, wanted_type, vertical_legs}
use alpha_desk.Connected.Opportunities.{
  unavailable, only, unit, judge_selected, judge_account, candidate_of, decision_for, intent_for,
  decided,
}

pub raised_ok :
    {E A : Type 0} (wrap : E → AnalysisError) (m : Result E A) {a : A}
    → raised wrap m ≡ ok a
    → m ≡ ok a
raised_ok wrap (ok x) h = ap ok (ok-injective _ _ h)
raised_ok wrap (err e) h = cc

module _ (step : ℕ) {S : Type 0} (service : Service S) where
  -- An intent was created from this decision.
  abbrev pub Creates : RankedCandidate → RiskDecision → OrderIntent → Type 0
  Creates candidate risk intent =
      create_order_intent service.texts service.drawn.order_intent_id service.drawn.evaluated_at
        risk candidate (pos 1) none "LIMIT_AT_CALCULATED_NET_V1" none
      ≡ ok intent

  -- The ranking of one structure is of that structure.
  only_one :
      (idea : TradeIdea) (structure : OptionStructure) (wanted : Bool)
      (ranked : List RankedCandidate) {candidate : RankedCandidate}
      → (let kept = if wanted then structure ∷ [] else [] in
          require (not (any divides_by_zero kept)) division_by_zero
          >> ok (
              order_by
                (candidate_leq step service.drawn.structure_id service.id_leq)
                (candidates_of step service.drawn.structure_id service.id_leq idea 0 kept)))
        ≡ ok ranked
      → only ranked ≡ ok candidate
      → structure ≡ candidate.structure
  only_one idea structure false ranked made first =
      let same : [] ≡ ranked = ok-injective _ _ made in cc
  only_one idea structure true ranked made first =
      let (_, sorted) = require-ok _ division_by_zero _ made in
      let same = ok-injective _ _ sorted in
      ap (λ c. c.structure) (ok-injective _ _ (ap only same ∙ first))

  only-structure :
      (idea : TradeIdea) (structure : OptionStructure) (ranked : List RankedCandidate)
      {candidate : RankedCandidate}
      → rank_candidates step service.drawn.structure_id service.id_leq idea (structure ∷ [])
        ≡ ok ranked
      → only ranked ≡ ok candidate
      → structure ≡ candidate.structure
  unfolding rank_candidates
  only-structure idea structure = only_one idea structure (is_wanted idea.direction structure)

  -- The account and the decision that an intent rests on.
  pub record Rests (signal : Signal) (idea : TradeIdea) (candidate : RankedCandidate) (s : S)
      (result : ConnectedAnalysis) (intent : OrderIntent) : Type 0 where
    pub account : BrokerAccount
    pub known : service.projections.get_account s ≡ some account
    pub created :
        Creates candidate (decision_for step service candidate signal.observed_at s account) intent
    pub result_is :
        result
        ≡ decided step service signal idea candidate
            (decision_for step service candidate signal.observed_at s account)
            (some intent)

  intent_if_ok :
      (approved : Bool) (made : Result IntentError OrderIntent) {intent : OrderIntent}
      → (if approved then (raised refused_intent made >>= λ intent. ok (some intent)) else ok none)
        ≡ ok (some intent)
      → made ≡ ok intent
  intent_if_ok false made h = cc
  intent_if_ok true (err e) h = cc
  intent_if_ok true (ok made) h = cc

  -- A result with an intent is not the one without.
  answered :
      (missing : Bool) (without : ConnectedAnalysis) (rest : Result AnalysisError ConnectedAnalysis)
      {result : ConnectedAnalysis} {intent : OrderIntent}
      → without.order_intent ≡ none
      → (if missing then ok without else rest) ≡ ok result
      → result.order_intent ≡ some intent
      → (missing ≡ false) × (rest ≡ ok result)
  answered false without rest absent h e = (refl, h)
  answered true without rest {result} absent h e =
      let same : without ≡ result = ok-injective _ _ h in
      let there = sym absent ∙ (ap (λ r. r.order_intent) same ∙ e) in cc

  judge_account-Rests :
      (signal : Signal) (idea : TradeIdea) (candidate : RankedCandidate) (s : S)
      (found : Option BrokerAccount) {result : ConnectedAnalysis} {intent : OrderIntent}
      → service.projections.get_account s ≡ found
      → judge_account step service signal idea candidate s found ≡ ok result
      → result.order_intent ≡ some intent
      → Rests signal idea candidate s result intent
  judge_account-Rests signal idea candidate s none {result} known h e =
      let same : unavailable step service signal idea "broker_account_unavailable" ≡ result =
        ok-injective _ _ h in
      let absent : none ≡ result.order_intent = ap (λ r. r.order_intent) same in cc
  judge_account-Rests signal idea candidate s (some account) {result} {intent} known h e =
      let risk = decision_for step service candidate signal.observed_at s account in
      let (_, rest) = require-ok _ validation_error _ h in
      let (found, created, last) = bind-ok (intent_for step service candidate risk) _ rest in
      let same : decided step service signal idea candidate risk found ≡ result =
        ok-injective _ _ last in
      let is_some : found ≡ some intent = ap (λ r. r.order_intent) same ∙ e in
      record {
        account = account;
        known = known;
        created = intent_if_ok (is_approve risk.decision) _ (created ∙ ap ok is_some);
        result_is = sym same ∙ ap (decided step service signal idea candidate risk) is_some;
      }

  pub candidate_of-Built :
      (idea : TradeIdea) (price : Decimal) (selected : List OptionContract)
      {candidate : RankedCandidate}
      → candidate_of step service idea price selected ≡ ok candidate
      → (pair : OptionContract × OptionContract) × (choose_legs
            (wanted_type idea.direction)
            price
            selected
          ≡ ok pair)
        × (build_structure
              (unit step)
              (vertical_type (wanted_type idea.direction))
              (vertical_legs pair.0 pair.1)
              (pos 1)
              none
            ≡ ok candidate.structure)
  unfolding candidate_of
  candidate_of-Built idea price selected {candidate} h =
      let (pair, chosen, built) =
        bind-ok (choose_legs (wanted_type idea.direction) price selected) _ h in
      let (structure, made, ranking) = bind-ok (raised invalid_structure _) _ built in
      let (ranked, sorted, first) = bind-ok (raised division _) _ ranking in
      let same : structure ≡ candidate.structure =
        only-structure idea structure ranked (raised_ok division _ sorted) first in
      (pair, chosen, raised_ok invalid_structure _ made ∙ ap ok same)

  -- From the selected contracts on: a candidate was found, and its risk judged.
  pub judge_selected_ok :
      (signal : Signal) (idea : TradeIdea) (price : Decimal) (s : S)
      (selected : List OptionContract) {result : ConnectedAnalysis} {intent : OrderIntent}
      → judge_selected step service signal idea price s selected ≡ ok result
      → result.order_intent ≡ some intent
      → (candidate : RankedCandidate) × (candidate_of step service idea price selected
          ≡ ok candidate)
        × Rests signal idea candidate s result intent
  judge_selected_ok signal idea price s selected {result} {intent} h e =
      let (enough, found) =
        answered (ltb (length selected) 2)
          (unavailable step service signal idea "insufficient_vertical_legs") _ refl h e in
      let (candidate, made, judged) =
        bind-ok (candidate_of step service idea price selected) _ found in
      (candidate, made, judge_account-Rests signal idea candidate s _ refl judged e)
