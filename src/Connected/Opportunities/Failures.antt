-- ===== src/Connected/Opportunities/Failures.antt =====
-- What `ConnectedOpportunityService.analyze` (packages/connected/opportunities.py) can raise.
use alpha_desk.Base.{◌≡◌, true, String}
use alpha_desk.Base.Results.{Result, ok, err, err≢ok}
use alpha_desk.Domain.Time.{Datetime}
use alpha_desk.Domain.Options.{Decimal}
use alpha_desk.Domain.Workflow.{CatalystFeatures}
use alpha_desk.Risk.Engine
use alpha_desk.Connected.Records.{
  AnalysisError, invalid_symbol, index_error, validation_error, source_failed, naive_time,
  invalid_structure, division, refused_intent, Market,
}

-- The symbol, the vendor, the prices of the legs and the account's equity may be at fault.
abbrev pub IsExpected : AnalysisError → Type 0
IsExpected invalid_symbol = Unit
IsExpected index_error = ⊥
IsExpected validation_error = Unit
IsExpected (source_failed _) = Unit
IsExpected (naive_time _) = ⊥
IsExpected (invalid_structure _) = Unit
IsExpected (division _) = ⊥
IsExpected (refused_intent _) = ⊥

abbrev RaisesExpected : {A : Type 0} → Result AnalysisError A → Type 0
RaisesExpected (ok _) = Unit
RaisesExpected (err e) = IsExpected e

returns-RaisesExpected :
    {A : Type 0} (m : Result AnalysisError A) {a : A} → m ≡ ok a → RaisesExpected m
returns-RaisesExpected (ok a) h = tt
returns-RaisesExpected (err e) h = absurd (err≢ok h)

-- `datetime.now(UTC)` is aware.
abbrev pub ReadsAware : Market → Type 0
ReadsAware market =
    (symbol : String) (read : CatalystFeatures × Decimal × Datetime)
    → market.features symbol ≡ ok read
    → read.2.has_tzinfo ≡ true
