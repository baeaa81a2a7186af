-- ===== src/Lib.antt =====
-- AlphaDesk: a desk that trades defined-risk option structures on paper.
--
-- Parts and how they interact. A signal is judged by a strategy (packages/strategy). Option contracts
-- are filtered for liquidity (packages/options/liquidity.py), and legs are built into a structure with
-- a bounded loss (packages/options/engine.py). The risk engine approves or rejects the structure
-- against the portfolio (packages/risk/engine.py). An approved decision becomes an order intent with a
-- stable client order id (packages/execution/intents.py), which the execution engine hands to the
-- broker adapter at most once (packages/execution/engine.py and store.py). Two gates stand before
-- that: the guardian, which an incident shuts until the broker is known again (packages/guardian), and
-- the broker gate, which wants a fresh reconciliation and a connected stream (packages/broker). The lab
-- tests strategies on history (packages/lab/evidence.py). Users register with an invitation and own one
-- workspace each, and a request acts in the workspace of its token's user (packages/auth); the keys for
-- a workspace's broker are stored encrypted (packages/security).
--
-- Files:
--   * Base: the names that all modules share. Booleans and Lists have Python's tests and folds,
--     Integers the integers over native numbers, Dict a dict, Results code that raises, Sorting
--     `sorted`.
--   * Domain: packages/domain. Options, Workflow, Broker, Guardian and System have the records of the
--     files of these names, Time has datetimes, and Quotient the quotient of two decimals.
--   * Options/Engine: `build_structure`, `aggregate_greeks` and `expiration_payoff`. Share has the payoff
--     of one share, Inversion what an accepted structure has passed, Bounds and Safety the bounds of the
--     payoff, Acceptance the spreads that are accepted.
--   * Options/Liquidity: `evaluate_contract`; Eligible says which contracts pass.
--   * Risk/Engine: `RiskEngine.evaluate`; Approval, Monotone and Limits have its theorems.
--   * Execution/Intents: `create_order_intent`. Execution/Engine: `ExecutionEngine.execute` and
--     `reconcile_uncertain` in the phases between which tasks run; Stores has both intent stores,
--     Outcomes every branch, Interleaving the tasks in any order.
--   * Guardian: Engine has `GuardianEngine.evaluate`, Store both incident stores, Gate what the
--     execution engine is told.
--   * Broker: Projections has the protocol of the copy of the broker's state, the contract `BrokerWins`
--     and the in-memory store, Table, TableLaws and Isolation the store on tables, Ids the sets of identifiers.
--     Reconciliation has the gate and the service; Gate, Recovery and Failure have their theorems.
--   * Auth: Invitations has the codes and packages/auth/invitations.py, Workspaces the provisioning,
--     Registration `RegistrationService.register` with the identity provider as the record `AdminAuth`,
--     Access jwt.py and dependencies.py. Codes, Provisioning, Outcome, Uses, History, Sync and Tenants
--     have their theorems. The rows are in Domain/Accounts.
--   * Security: Credentials has `CredentialCipher`, with the library's functions in the record `Sealing`
--     and what is assumed of them in `SealingLaws`, Store has `CredentialStore`, RoundTrip its theorem.
--   * Strategy: Catalyst, its score (Scoring) and ranking (Ranking), Volatility and Protection; the
--     rounding of `quantize` is in Domain/Rounding. Lab: Evidence has the simulation clock and the walk-forward
--     windows.
--   * Connected: `ConnectedOpportunityService.analyze`, with the records in Records, the choice of the
--     contracts in Selection and the stages in Opportunities. Legs, Choice, Stages and Ranked have lemmas,
--     Safety and Failures the theorems. The vendor's answers are the record `Market`.
--   * Worker: apps/worker/__main__.py. Connections has the supervisor of connections, with Rounds and
--     Single for its theorems, Runtime one workspace's runtime, Scanner the scanner and its scan runs.
--   * Desk: `ConnectedPreflight` of apps/api/routes/desk.py, both gates before the execution engine, and
--     in Confirmation `confirm_paper_order`, with Backing and Outcome for what it leaves; in
--     Recovery `guardian_halt` and `guardian_recover`. A stored payload is read back as the result that
--     was written.
--   * Assistant: packages/ai/workflow.py, three agents in a row, each with one repair; its records are in
--     Domain/Assistant, its theorem in Citations. The provider is the record `AiProvider`.
--   * Pipeline: the parts composed. Samples and the modules named Examples have concrete data and runs.
--
-- Conventions:
--   * A Decimal is an integer that counts in a fixed unit; the unit, or its hundredth, is a parameter
--     wherever the code compares with a written decimal. Sums and products by integers are exact, as
--     Python's are within 28 digits. A quotient is kept as a fraction and compared by cross
--     multiplication (Domain/Quotient.antt).
--   * A datetime is its instant in microseconds of UTC; a UUID is its text; fresh identifiers and the
--     current time are arguments.
--   * The SHA-256 digest and the texts of numbers are the functions of the record `Texts`, of which
--     nothing is assumed. The order of texts in the database is a parameter.
--   * Python's `upper`, `lower` and `strip` are modelled for ASCII (Base/Texts.antt). `quantize` rounds
--     half to even, as Python's default context does.
--   * The drawdown that `analyze` hands to the risk engine is rounded down to the unit of the decimals; the
--     engine only asks whether it is below a bound in whole units.
--   * A method that changes its object returns the new state. A method that raises returns a `Result`.
--   * A table is the list of its rows, and one method is one transaction. Primary keys and unique
--     constraints are the cases in which it raises. The broker is a function of what was submitted to
--     it, or a sequence of its answers.
--   * Loops are structural on lists. The one that is not, Python's `range` in the walk-forward windows,
--     runs on fuel equal to its stop, which is enough since every step is at least one.
--
-- Not modelled: the web application, the wiring of the API, the start-up of the worker, the features
-- of a signal that are read from the network, the adapters that only translate to a vendor's client,
-- the prompts and the provider of the AI, the checks of a token's signature, the requests to the
-- identity provider, the demonstration, the event bus, the database's sessions and migrations,
-- logging and configuration, and the lab's costs, metrics and analogs.
pub mod Base
pub mod Domain
pub mod Options
pub mod Risk
pub mod Broker
pub mod Execution
pub mod Guardian
pub mod Strategy
pub mod Lab
pub mod Auth
pub mod Connected
pub mod Worker
pub mod Security
pub mod Assistant
pub mod Desk
pub mod Pipeline
pub mod Samples
