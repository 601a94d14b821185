-- ===== src/Lib.antt =====
-- The underwriting and the scoring of distressed properties, modelled from the repository's Python.
--
-- A property that was extracted and resolved is a `NormalizedProperty`. `finance/engine.py` turns it,
-- under an `AssumptionSet`, into an `UnderwritingResult`: values, liabilities, equity and costs in
-- three scenarios. The strategies give `StrategyResult`s, and `scoring/engine.py` turns all of these
-- into a `ScoreSet`: four scores, an overall score under gates, and a recommended strategy.
--
-- Files and what they model:
-- Prelude: shared helpers; Prelude/Results is a call that returns or raises, with postconditions.
-- Python: `decimal.Decimal` and the text methods, which are not in the repository, as a record of
-- operations that every definition takes; Python/Laws names what a proof needs of decimals (a total
-- order that arithmetic and rounding respect, and the values of a few constants); Python/Fixed is an
-- instance, fixed-point numbers in millionths, that satisfies the laws and runs the model.
-- Contracts: the records and enumerations of contracts/models.py; Contracts/Dates is
-- `datetime.date` by year, month and day.
-- Finance: finance/engine.py with common/money.py, common/rates.py, common/mortgage.py and
-- finance/transfer_tax.py. Finance/Validation is `_validate_assumptions`; Valuation the candidates
-- and comparables; Debt the mortgage balances, the published bid and `finance_flags`; Liabilities
-- `_liabilities`; Engine and Underwrite `underwrite`.
-- Scoring: scoring/engine.py. Configuration is `DEFAULT_CONFIG`, `resolve_config` and the reading of
-- a configuration; Recommend `_recommend`; Opportunity `_fos`; Events and Distress `_distress`;
-- Confidence `_dcs`; Risk `_risk`; Engine `score`.
-- Strategies: strategies/engine.py. Balance is `_resolved_mortgage_balance`, with `estimate_balance` of
-- common/rates.py; Costs the percentages, costs and maximum offers that the strategies share; Sale
-- `cash`, `flip` and `wholesale`; Rental `rental`; Foreclosure `subject_to`, `foreclosure` and
-- `all_strategies`; Months `_months_base_from_costs`; Offers `offer_point` and `offer_grid`; ShortSale
-- `short_sale_flag_requests`. The other files in the folder are proofs: Outcomes and Reports about the
-- strategies' results, Deductions, Steps and Proceeds about the breakdown that Finance writes and the
-- offers read, Grid and Sorted about the points, Prices about lower prices, Errors and Loans about
-- exceptions, Juniors about the junior debts of a foreclosure.
-- Flags: flags/store.py and `resolve_flag` of flags/workflow.py, on the rows of the table. Store is the
-- reading of requests and rows, Sync `sync_flags`, Persist `persist_flags`, Resolve `resolve_flag`;
-- the other files in the folder are proofs: Counts, Settled and Single about what is open, Rows, Tables
-- and Findings about the rows that are kept, Answers and Resolved about answers, Added about new flags.
-- Ranking: compute_ranks and rank_scope of scoring/ranking.py.
-- Changes: changes/diff.py. Matching is `_match`, Diff the comparison of two records.
-- Jobs: `InMemoryJobQueue` of jobs/queue.py, with the handlers as arguments.
-- Chat: ops/budget.py and ops/chat_budget.py, on the dict of the row that is read, changed and
-- written back under a lock.
-- Samples and Tests: concrete records, and the theorems at these.
--
-- An exception is the `err` of a result, with the kinds of exception that the code raises itself or
-- meets on a missing key or a wrong type. A dict is an association list in the order of insertion. A
-- clock, where the code reads one, is an argument. Every loop is a recursion on the list that the
-- code goes through, so no fuel is used. A division by zero raises where the divisor can be zero
-- in spite of the code's own tests, which is the payment of a rental's loan; the other divisions are
-- the decimals' operation, and an overflow of the decimal context is outside the model, as is the
-- precision of 40 digits that `underwrite` sets.
--
-- Not modelled: the collection of flags (flags/service.py);
-- `diff_records` of changes/diff.py and the SQL of scoring/ranking.py and of
-- jobs/postgres.py; the trace recorder, which only reads values; the display dicts of a value block;
-- the SHA-256 of a flag's JSON, and the order in which Python lists a set, which are arguments; and the
-- parts that call databases, language models, HTTP and files.
pub mod Prelude
pub mod Python
pub mod Contracts
pub mod Scoring
pub mod Finance
pub mod Strategies
pub mod Flags
pub mod Jobs
pub mod Changes
pub mod Ranking
pub mod Chat
pub mod Samples
pub mod Tests
