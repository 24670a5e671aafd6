-- ===== src/Lib.antt =====
-- A model of Lumo, the agent that reads invoices and pays them from an escrow, with proofs.
--
-- The program. lumo/pipeline.py reads an invoice: it scans the text for injections
-- (lumo/security), has a model extract the fields, builds a request and asks a chain of guards,
-- the policy engine (lumo/policy/engine.py) among them. The verdict becomes a decision in the
-- repository (lumo/db/repo.py over SQLite): refused, held, or proposed with a plan. lumo/flow.py
-- takes a proposed intent through the escrow on a chain: execute, attest, release, revert;
-- lumo/chain/mapper.py copies the chain's status back. lumo/chain/mock_chain.py is a chain in the
-- process, lumo/chain/soroban_client.py and lumo/chain/smart_account.py reach a network. Every
-- write to the repository may publish an event (lumo/monitor/events.py), which the metrics count
-- and the webhooks send on. lumo/sdk.py offers all of it to programs, lumo/mcp.py to agents and
-- lumo/api.py over HTTP, lumo/cli.py on the command line; lumo/testtool.py takes one
-- invoice the whole way, and lumo/db/migrate.py makes the tables.
--
-- The files. Each names its code in its first lines; functions and fields keep the names of the
-- source.
--   Base       Boolean tests, tables (lists of rows), ℤ, actions with errors, and rules for what
--              an action keeps (Base.Stays) and returns (Base.Returns, Base.Ends)
--   Models     lumo/models.py
--   Policy     lumo/policy/engine.py; proofs in Verdict and Daily
--   Config     lumo/config.py, Env for the environment; proofs in Valid
--   Json       JSON values
--   Monitor    lumo/monitor/events.py, Metrics (lumo/monitor/metrics.py) and Webhooks
--              (lumo/monitor/webhooks.py); proofs in Recent, Metrics.Count, Metrics.Live and
--              Webhooks.Safe, Webhooks.Delivery, Webhooks.Mock
--   Chain      lumo/chain/adapter.py as the record ChainAdapter, and Chain.Mock for
--              lumo/chain/mock_chain.py with proofs in Ledger, Moves, Intents, Lifecycle,
--              Machine, Solvency, Covered, Vault, Payout and Supply; Soroban
--              (lumo/chain/soroban_client.py) with Operation, Command and Told; SmartAccount
--              (lumo/chain/smart_account.py) with Trace and Reported; Adapter, the adapters of
--              lumo/chain/adapter.py
--   Db         lumo/db: Rows (the tables of lumo/db/migrations with their constraints), Queries,
--              Repo and Decide (lumo/db/repo.py), Ulid (lumo/db/ulid.py); proofs in Evolves,
--              Frame, Preserved, Unique, Fresh, Decide.Stays, Decide.Events, Decide.Returns and
--              Ulid.RoundTrip
--   Injection  lumo/security: the scan and, in Patterns, the texts of the regular expressions;
--              proofs in Clean
--   Llm        lumo/llm: the prompt, the mock and the llama server; proofs in Unusable
--   Oracle     lumo/oracle/adapter.py
--   Anchor     lumo/anchor
--   Pipeline   lumo/pipeline.py: Amount, Guards, GuardChain, Findings and Run; proofs in Verdict,
--              Oracles, Payment, Keeps, Answers, Settled, Total and
--              Proposal
--   Flow       lumo/flow.py and lumo/chain/mapper.py: Steps, Execute and Settle; proofs in Trace,
--              Release, below Execute, and in Paid
--   Sdk        lumo/sdk.py; proofs in Attest
--   Testtool   lumo/testtool.py; proofs in Row, Fundable and Pays
--   Mcp        lumo/mcp.py; proofs in Reply and Serve
--   Api        lumo/api.py, Document for OPENAPI; proofs in Sound, Urls and Bodies
--   Migrate    lumo/db/migrate.py; proofs in Up
--   Cli        lumo/cli.py and lumo/db/seed.py; proofs in Seed and Once
--   Ui         lumo/ui/server.py, Read for the GET requests; proofs in Profile
--   Scripts    SeedDemo (scripts/seed_demo_db.py) and Enforcement
--              (scripts/verify_policy_enforcement.py); proofs in Enforcement.Status
--   Tests      runs on small inputs
--
-- State and errors. A method is an action: a function from the state to a result and the next
-- state. What it wrote before it raised stays written, but for a block `with self.conn:`, which
-- rolls back (Db.Queries.transaction). The state of the repository holds the tables, the event
-- bus, the clock, and the ids that `ulid.new` will return; the flow runs on a repository and the
-- state of a chain. Amounts are integers; Python's have no bounds, and neither have these.
-- Every definition is total by structural recursion, so that there is no fuel.
--
-- Parameters. The chain adapter of the flow is arbitrary, and so are SHA-256, NFKC, the regular
-- expressions, `Decimal`, the HTTP client of the model server, `str.lower`, `str.strip`, `int` of
-- a text, JSON as text, running a process, the Stellar SDK, URLs, the DNS and IP addresses, SQL
-- scripts, the sinks of webhooks and the subscribers of the bus. What a theorem assumes of them
-- is said above it.
--
-- Flow.Trace.traced adds to any chain adapter a record of the calls of `create_intent` after which
-- an escrow may exist: those that succeed, and those that raise ChainSubmittedUnconfirmed.
--
-- Chain.Soroban.Told.traced_cli, Chain.SmartAccount.Trace.traced_rpc, and the traced parameters of
-- Monitor.Webhooks.Delivery and Api.Bodies likewise record what is asked of the world outside.
--
-- Not modelled: the opening of the database, the parsing of configuration files and of the command
-- line, the pages of the user interface, sockets, and the contracts, which are not Python. They
-- are I/O around this core. Requests of the API are handled one after another. The reason texts of
-- the guards are left out, and so are the times in listings.

pub mod Base
pub mod Models
pub mod Policy
pub mod Chain
pub mod Config
pub mod Json
pub mod Monitor
pub mod Db
pub mod Injection
pub mod Llm
pub mod Oracle
pub mod Anchor
pub mod Pipeline
pub mod Flow
pub mod Sdk
pub mod Testtool
pub mod Mcp
pub mod Api
pub mod Migrate
pub mod Cli
pub mod Ui
pub mod Scripts
pub mod Tests
