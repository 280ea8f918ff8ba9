-- ===== src/Lib.antt =====
-- CollectMind: from a diagnostic finding to a collection policy on vehicles and to its outcome.
--
-- A finding comes in over HTTP (src/collectmind/ingest), behind a rate limiter for each tenant
-- (src/collectmind/ratelimit). The graph (src/collectmind/graph) has a model generate a policy, has
-- the validator (src/collectmind/validator) check it, and deploys it; the runner writes what
-- happened to the registry (src/collectmind/registry). A deployment is meant for vehicles that the
-- tenant owns (src/collectmind/deployer, src/collectmind/cache). When its window is over, the
-- feedback worker (src/collectmind/feedback) evaluates it. A subject is erased from the stores on
-- request (src/collectmind/erasure). Tenants read their own policies, outcomes and trail through the
-- query interface (src/collectmind/query); an operator reads one tenant's trail by the break-glass
-- route (src/collectmind/audit_admin). Both show a token, which src/collectmind/auth checks.
--
-- Prelude: Python's lists, texts, dicts (Dict) and JSON values (Json). A text that is walked is
--   the list of its code points, one that is only compared a native string.
-- Models: src/collectmind/models/policy.py.
-- RateLimit: TokenBucket is token_bucket.lua, on whole numbers, with the stored hash as an
--   optional record; Paths and Middleware are middleware.py. Redis is a parameter: a state with
--   SCRIPT LOAD and EVALSHA. A request is handled to its end before the next. Listener is
--   config_cache.py: the phases of its loop and its connection as a step relation.
-- Registry: TenantConfig is tenant_config.py, with the time of each call and the row of the table
--   as arguments; Audit is audit.py over the audit_events table as a list in the order of
--   insertion, where the row-level security is part of the queries; Shown is what a row is shown
--   as. Policies, Deployments and Outcomes are the repositories of repository.py on lists of rows,
--   where a cast that Postgres makes is a parameter; Integrity is about all of their tables
--   together. Migrations is migrations/runner.py, with what a file does to the schema a parameter.
-- Validator: Vss, Governance and Policy are vss.py, governance.py and policy_validator.py, from
--   the parsed files on; difflib is a parameter. Sorted is sorted() of a set.
-- Graph: Session and Nodes are session.py, orchestrator.py and the three nodes over their
--   clients, which may raise; Build is the loop of build.py. Its fuel is one round for each retry
--   that is left and one more, since a round that goes on uses up a retry; out of fuel is a result
--   of its own. Runner is runner.py: the effects of a run as a list, and their execution up to the
--   first that raises.
-- Pipeline: run_async of runner.py, the graph and its effects over the tables of the registry,
--   with the audit row of its except clause. The telemetry of the simulator is no table of these.
-- Deployer: Ownership is registry/tenant_vehicles.py and cache/ownership_cache.py; Scope is
--   tenant_scope_check.py and node.py, with the cache and the audit writer given.
-- Ingest: SchemaVersion is schema_version.py with a matcher for its pattern, Idempotency is
--   idempotency.py, Handler is post_finding of http.py, on the findings, the audit table and the
--   sessions that it starts; Concurrent is the same handler one transaction at a time, where
--   requests overlap. pydantic and the digest are parameters.
-- Feedback: Evaluator is evaluator.py, with floats of a type that is a parameter; Worker is
--   worker.py over the deployments of Registry.Deployments.
-- Erasure: erasure/dispatcher.py on the rows that it reaches; which statements cannot reach their
--   store is an argument.
-- Routes: the route labels of app.py. App: the layers of app.py around a handler, which is a
--   parameter, the readiness answer, and the choice of the model client.
-- Query: the identifier guard of query/api.py and its handler of the audit trail; Handlers are
--   the others, over the tables of the registry.
-- Errors: errors.py. Auth: Verifier is auth/jwt_verifier.py with what it caches as its state,
--   where PyJWT and httpx are a parameter; Principals are dependencies.py and
--   operator_principal.py.
-- BreakGlass: audit_admin/api.py, the insert of the audit row and the read after it.
-- HotStore: redis/client.py, with the values that Redis holds as an association list of the keys.
-- Runbooks: scripts/check_runbook_completeness.py, on the parsed rules, the entries of the
--   runbook directory and the text of each file; which characters are of words is a parameter.
-- The Examples of each part apply its theorems at concrete inputs.
--
-- Not modelled: PyJWT, httpx, asyncpg and Redis themselves; the model servers, the collector,
-- Kafka, OpenTelemetry, logging and the gauges, which are calls of libraries; connections; prompt
-- rendering; the other scripts that check the repository's files; requests that overlap elsewhere
-- than in post_finding.
pub mod Prelude
pub mod Models
pub mod Runbooks
pub mod Validator
pub mod Graph
pub mod RateLimit
pub mod Registry
pub mod Deployer
pub mod Ingest
pub mod Feedback
pub mod Erasure
pub mod Routes
pub mod Pipeline
pub mod Query
pub mod Errors
pub mod App
pub mod Auth
pub mod BreakGlass
pub mod HotStore
