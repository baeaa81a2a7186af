-- ===== src/Desk/Confirmation/Backing.antt =====
-- What an intent that `confirm_paper_order` (apps/api/routes/desk.py) hands to the execution engine
-- rests on.
use alpha_desk.Base.{
  ◌≡◌, refl, ap, ℕ, ◌<◌, true, not, Option, none, some, String, List, length, str_eq_iff,
  find_first, find_first-passes, &&-parts, arith, subst,
}
use alpha_desk.Base.Results.{ok, bind-ok, require-ok, ok-injective}
use alpha_desk.Domain.Time.{Datetime, is_at_most}
use alpha_desk.Domain.Options.{Decimal}
use alpha_desk.Domain.Workflow.{
  Uuid, RankedCandidate, RiskDecisionValue, approve, reject, OrderIntent,
}
use alpha_desk.Domain.Broker.{BrokerAccount}
use alpha_desk.Auth.Access.{HttpFailure, WorkspaceContext}
use alpha_desk.Broker.Projections.{BrokerProjectionStore}
use alpha_desk.Broker.Reconciliation
use alpha_desk.Broker.Reconciliation.{maximum_reconciliation_age}
use alpha_desk.Risk.Engine.Approval.{MayTrade, evaluate_approves_iff}
use alpha_desk.Execution.Intents.{is_approve}
use alpha_desk.Connected.Records.{ConnectedAnalysis, ConnectedOpportunity}
use alpha_desk.Connected.Opportunities.{context_of, default_risk_policy, unit}
use alpha_desk.Desk.Confirmation.{or_fail, is_row, reviewed, approved}

or_fail-ok :
    {A : Type 0} (failure : HttpFailure) (found : Option A) {a : A}
    → or_fail failure found ≡ ok a
    → found ≡ some a
or_fail-ok failure none h = cc
or_fail-ok failure (some x) h = ap some (ok-injective _ _ h)

-- A stored opportunity that may be confirmed.
pub record IsReviewed (now : Datetime) (client_order_id : String) (opportunity : ConnectedAnalysis)
    (intent : OrderIntent) (candidate : RankedCandidate) : Type 0 where
  pub real : opportunity.source ≡ "ALPACA_REAL"
  pub intended : opportunity.order_intent ≡ some intent
  pub not_expired : now.micros < opportunity.expires_at.micros
  pub same_order : client_order_id ≡ intent.client_order_id
  pub ranked : opportunity.candidate ≡ some candidate

reviewed-IsReviewed :
    (now : Datetime) (client_order_id : String) (opportunity : ConnectedAnalysis)
    {review : OrderIntent × RankedCandidate}
    → reviewed now client_order_id opportunity ≡ ok review
    → IsReviewed now client_order_id opportunity review.0 review.1
unfolding reviewed
reviewed-IsReviewed now client_order_id opportunity {review} h =
    let (real, after_source) = require-ok _ _ _ h in
    let (intent, intended, after_intent) =
      bind-ok (or_fail _ opportunity.order_intent) _ after_source in
    let (timely, after_expiry) =
      require-ok (not (is_at_most opportunity.expires_at now)) _ _ after_intent in
    let (same, after_match) = require-ok _ _ _ after_expiry in
    let (candidate, ranked, last) = bind-ok (or_fail _ opportunity.candidate) _ after_match in
    let result : (intent, candidate) ≡ review = ok-injective _ _ last in
    subst (λ r. IsReviewed now client_order_id opportunity r.0 r.1) result
      (record {
        real = (str_eq_iff _ _).0 real;
        intended = or_fail-ok _ _ intended;
        not_expired = ground arith;
        same_order = (str_eq_iff _ _).0 same;
        ranked = or_fail-ok _ _ ranked;
      })

is_approve_eq : (d : RiskDecisionValue) → is_approve d ≡ true → d ≡ approve
is_approve_eq approve h = refl
is_approve_eq reject h = cc

module _ (step : ℕ) (show : Decimal → String) {P : Type 0} (projections : BrokerProjectionStore P)
    (now : Datetime) (decision_id : Uuid) where
  -- What the intent that goes to the engine rests on.
  pub record IsApproved (context : WorkspaceContext) (opportunity_id : Uuid)
      (client_order_id : String) (rows : List ConnectedOpportunity) (p : P) (intent : OrderIntent)
      : Type 0 where
    pub row : ConnectedOpportunity
    pub candidate : RankedCandidate
    pub account : BrokerAccount
    pub found : find_first (is_row context.workspace_id opportunity_id) rows ≡ some row
    pub own : row.workspace_id ≡ context.workspace_id
    pub review : IsReviewed now client_order_id row.payload intent candidate
    pub known : projections.get_account p ≡ some account
    pub may_trade : MayTrade (unit step) (default_risk_policy step) candidate (
        context_of step account
          (length (projections.list_positions p))
          (Reconciliation.evaluate projections maximum_reconciliation_age now p).allowed)

  pub approved-IsApproved :
      {C : Type 0} (context : WorkspaceContext) (opportunity_id : Uuid) (client_order_id : String)
      (rows : List ConnectedOpportunity) (p : P) (secrets : Option C) {intent : OrderIntent}
      → approved step show projections now decision_id context opportunity_id client_order_id rows p
          secrets
        ≡ ok intent
      → IsApproved context opportunity_id client_order_id rows p intent
  unfolding approved
  approved-IsApproved context opportunity_id client_order_id rows p secrets {intent} h =
      let wanted = is_row context.workspace_id opportunity_id in
      let (row, found, after_row) = bind-ok (or_fail _ (find_first wanted rows)) _ h in
      let (review, passed, after_review) =
        bind-ok (reviewed now client_order_id row.payload) _ after_row in
      let (account, known, after_account) =
        bind-ok (or_fail _ (projections.get_account p)) _ after_review in
      let (_, after_equity) = require-ok _ _ _ after_account in
      let (approves, after_risk) = require-ok _ _ _ after_equity in
      let (_, _, last) = bind-ok (or_fail _ secrets) (λ _. ok review.0) after_risk in
      let there = or_fail-ok _ (find_first wanted rows) found in
      let passes = find_first-passes wanted rows row there in
      let (own, _) = &&-parts _ _ passes in
      subst (IsApproved context opportunity_id client_order_id rows p) (ok-injective _ _ last)
        (record {
          row = row;
          candidate = review.1;
          account = account;
          found = there;
          own = (str_eq_iff _ _).0 own;
          review = reviewed-IsReviewed now client_order_id row.payload passed;
          known = or_fail-ok _ _ known;
          may_trade =
              (evaluate_approves_iff (unit step) show (default_risk_policy step) decision_id now
                  review.1
                  (context_of step account (length (projections.list_positions p))
                    (Reconciliation.evaluate projections maximum_reconciliation_age now
                      p).allowed)).0
                (is_approve_eq _ approves);
        })
