-- ===== src/Lib.antt =====
-- Inferrail: spending limits and receipts for AI agents.
--
-- Inferrail stands between an agent and the providers of language models. Each call is routed, priced,
-- admitted against the budgets that apply to it, sent, and recorded as a receipt with its cost. A
-- separate service keeps a ledger of authority that agents delegate to one another.
--
-- The parts, and the files that model them:
--   Authority  hosted/a2a_economic_authority/core.py, the ledger of delegations. `create_root`,
--              `reserve`, `grant`, `consume`, `settle`, `mark_revocation_started` and `invariant` of
--              EconomicAuthorityStore are the functions of those names in Authority/Api.antt; State has
--              the two tables, Walks the searches of the tree, Calls runs of calls.
--   Pricing    PriceEntry of src/inferrail/config/models.py in Price, receipts/calculator.py in Cost
--              and Usage, pricing/resolver.py in Resolver (src/inferrail/ throughout).
--   Routing    src/inferrail/routing/router.py.
--   Receipts   src/inferrail/receipts/: schema and classification in Schema, builder.py in Build,
--              sqlite_store.py in Store, aggregation.py in Economics.
--   Errors     src/inferrail/errors/exceptions.py.
--   Budgets    src/inferrail/budgets/: schema.py in Schema, store.py in Store, enforcement.py in Clock
--              (windows), Estimate, Spending, Enforcer (admission) and Overrun. Run is a step relation
--              of interleaved requests on the two stores.
--   Gateway    src/inferrail/gateway/: budget_admission.py in Admission, the retry loop of
--              execution.py in Execution, its streaming path in Stream, and the reading of usage from
--              the forwarded bytes (_SseBookkeeper) in Sse; anthropic_execution.py in Anthropic.
--   Transactions  src/inferrail/transactions/builder.py, the receipts of one task.
--   Work       src/inferrail/work/: the summary of one work and of all of them.
--   Recovery   src/inferrail/ap/, the recovery of exceptions in accounts payable: models.py in Models,
--              policy.py in Policy, validation.py in Validation, store.py in Store, engine.py in Engine.
--              Engine.System interleaves the calls of several processes on one store.
--   WorkEconomics  hosted/work_economics/, a capability that is sold per call: capability.py in
--              Capability, store.py in Store, the invoke handler of service.py in Service.
--   Common     numbers, lists, texts, dictionaries, JSON values and doubles that these share.
--
-- How they meet: Gateway.Execution takes a reservation by Budgets.Enforcer.reserve, which reads the
-- receipts that Receipts.Store holds; an answer becomes a receipt by Receipts.Build, priced by
-- Pricing.Resolver, and the reservation is released after the receipt is written, or held. Stream does
-- the same for a stream, with the usage that Sse found in its bytes; Counts says what is done with a
-- count of tokens that is no whole number. Transactions and Work read the receipts.
--
-- Conventions. An amount of money is a number of 10⁻¹² dollars, an integer in Authority and a natural
-- number elsewhere, so that a rate of dollars per million tokens is a whole number per token, and
-- sums, differences and comparisons of decimals of up to twelve places are exact. The amounts of
-- Budgets are never negative, nor are the token counts of a receipt. A time is a number of
-- microseconds since 1970 (in Authority a number), and the current time and fresh ids are arguments. A
-- table of SQLite is a list of rows, a transaction a function from tables to tables, and BEGIN
-- IMMEDIATE makes it atomic. A raised exception is a value of a sum.
--
-- A call of Recovery.Engine is a value of Stage, and `advance` runs it up to the end of its next
-- transaction or of its next call of an adapter or a handoff; between two stages other processes may
-- do the same, and a process may crash after any stage.
--
-- Bounds. Loops over tables and attempts are structural. The walks of Authority go through the table
-- with its number of rows, plus one, as fuel: a lineage has no longer path, which
-- Authority.Walks.Lineage shows for the walk to the root. The loop of Gateway.Sse over a buffer has
-- the length of the buffer, plus one, as fuel: each round removes a separator, and Sse.Events shows
-- that this is enough. A call of Recovery.Engine has nine stages at most.
--
-- Parameters. The built-in price tables, the answers of a provider, of an adapter and of a handoff,
-- the text that `str` gives for a decimal, the reading of a decimal and of JSON from a text, what
-- becomes of token counts that are no whole numbers, and the SHA-256 and the version 5 UUID of a text
-- are arguments.
--
-- Not modelled. Outside the reach of the kernel: HTTP, provider adapters, files, telemetry, the
-- command line, the scraper of vendor pages and the payment libraries. Left out of this version: the
-- routing step of a Messages API request, the reading of request headers, the batches and reports of
-- the AP recovery, the migrations of old schemas, the economic action of examples/agent_economy, and
-- the other hosted services. Messages of errors are left out, and the classes kept.
pub mod Common
pub mod Authority
pub mod Pricing
pub mod Routing
pub mod Receipts
pub mod Errors
pub mod Budgets
pub mod Transactions
pub mod Recovery
pub mod WorkEconomics
pub mod Work
pub mod Gateway
