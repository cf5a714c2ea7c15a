-- ===== src/Lib.antt =====
-- A model of AIAgentX, a platform that runs language-model agents: a run of an agent version goes
-- through a state machine, calls tools under policies and approvals, and talks to model providers
-- that may fail.
--
-- The parts, and the files that model them:
--   Money            domain/value_objects/money.py: money in micro-units, token usage
--   RunState         domain/value_objects/state.py: the states of a run and their transitions
--   Run.Data         domain/entities/base.py, events/run_events.py, and the fields of entities/run.py
--   Run.Steps        `RunStep` of domain/entities/run.py
--   Run.Methods      `Run` of domain/entities/run.py, one function for each method
--   Run.Calls        any sequence of those methods, by a caller who may catch what they raise
--   Run.Table        infrastructure/db/repositories/run.py, infrastructure/db/models/run.py
--   Run.UseCases     application/use_cases/run.py
--   Run.Bounds, Run.Lifecycle, Run.Log, Run.Lease, Run.Stored, Run.Created     theorems on runs
--   Cancellation     application/services/cancellation_service.py,
--                    infrastructure/cache/cancellation_signals.py; Cancellation.Flags: theorems
--   Approval.Request      domain/entities/approval_request.py
--   Approval.Table        infrastructure/db/repositories/security.py, infrastructure/db/models/approval.py
--   Approval.Coordinator  domain/services/approval_coordinator.py and `cancel_request` of
--                         api/v1/approvals/router.py
--   Approval.Decisions, Approval.History, Approval.InTime     theorems on approvals
--   Policy.Rules, Policy.Glob, Policy.Evaluator     domain/value_objects/policy.py
--   Policy.Grant          domain/entities/tool_grant.py
--   Policy.Priority, Policy.Effects, Policy.Legacy     theorems on policies
--   ToolExecution.Service application/services/tool_execution_service.py
--   ToolExecution.Checks  theorems on tool calls
--   Agent.Version, Agent.Aggregate     domain/entities/agent.py, domain/events/agent_events.py
--   Agent.Published, Agent.Frozen      theorems on agents
--   Provider.Breaker      infrastructure/providers/circuit_breaker.py
--   Provider.Retry        infrastructure/providers/retry.py
--   Provider.Fallback     infrastructure/providers/fallback.py, application/services/fallback_service.py
--                         (the configurations of all three: domain/providers/value_objects.py)
--   Provider.Breaker.Cycle, Provider.Breaker.HalfOpen, Provider.Retry.Attempts,
--   Provider.Fallback.Accounts, Provider.Fallback.Balance     theorems on providers
--   Provider.Registry, Provider.Health     infrastructure/providers/registry.py and health.py
--   Provider.Service      application/services/provider_service.py
--   Provider.Registry.Consistent, Provider.Service.Served, Provider.Service.Skipped     theorems
--   Cost             application/services/cost_service.py, `CostCalculation` of
--                    domain/providers/value_objects.py; Cost.Rounding, Cost.Prices: theorems
--   RateLimit, RateLimit.Limiter, RateLimit.Script     application/services/rate_limit_service.py,
--                    infrastructure/cache/rate_limiter.py; RateLimit.Unlimited: theorems
--   Idempotency      application/services/idempotency_service.py,
--                    infrastructure/cache/idempotency_store.py; Idempotency.Replay: theorems
--   Session          application/services/session_memory_service.py,
--                    infrastructure/cache/memory_cache.py; Session.History: theorems
--   Memory           domain/entities/memory.py, application/services/memory_write_service.py;
--                    Memory.Written: lemmas
--   TextTools        infrastructure/text/normalizer.py (Truncate) and chunker.py (Tokens, Chunks,
--                    Chunker), each with its theorems
--   Degradation      application/services/degradation_service.py; Degradation.Recovery: theorems
--   Tenant           domain/entities/tenant.py; Tenant.Replay: theorems
--   User             domain/entities/user.py, domain/entities/api_key.py; User.Revoked: theorems
--   Outbox           domain/entities/outbox.py, infrastructure/db/repositories/outbox.py,
--                    workers/outbox_flusher.py; Outbox.Drained: theorems
--   Redis, RedisLists     what is used of a Redis server, as interfaces with laws, each with a server
--                    that meets them
--   Budget           application/services/budget_service.py; Budget.Checked, Budget.Stored:
--                    theorems
--   Common           shared helpers; Tests: concrete runs of every part
-- All paths above are below app/.
--
-- How the parts interact: `execute_tool` evaluates the grant of a tool (Policy.Grant), asks the
-- limiter, and either runs the tool or stores a request with the coordinator (Approval.Coordinator)
-- and lets the run wait (Run.Methods). The methods of a run and of an approval record events until
-- `collect_events` hands them out. The use cases and the cancellation service read runs from a
-- repository, change them by the methods of Run.Methods and save them; Run.Table is the repository
-- of the program. The provider service selects a provider from the registry, asks its breaker
-- (Provider.Breaker), records the outcome with the breaker and the health monitor, and asks the
-- handler of Provider.Fallback for another one. Idempotency, cancellation and sessions keep their
-- state in Redis, which may fail at each call.
--
-- How the code is read: a mutable object is a record, and a method that may raise is a function
-- from the state to a result and the state that it leaves behind, also when it raises
-- (Common.Exceptions). Each reading of a clock is an argument `now…`, in microseconds. An
-- identifier that is drawn at random is an argument, a natural number. Python's integers are ℤ
-- where a negative one can arrive, and the native ℕ behind the check that excludes it.
-- `datetime.replace` is modelled with its range check on the second. The loop of the retries is
-- recursion on the number of rounds that `range` gives. The loops of TextTools take fuel and answer
-- `none` when it runs out: one round more than the text has code points, or than there are tokens,
-- is enough for `truncate`, for the chunks of a chunker without a tokenizer whose overlap is at
-- most half a chunk, and for those of a chunker with a tokenizer and without an overlap; no fuel is
-- enough for a tokenizer's tokens with an overlap.
--
-- Parameters, for code outside the repository: the interfaces `Redis` and `RedisLists`, and
-- `Server` of RateLimit.Limiter, whose law is that redis-py refuses a `bool` as a command's
-- argument; `up…` and `loads…`, whether a call of Redis returns; a tokenizer's `encode` and
-- `decode`, and `overlap_of`, a product with a float; `complete_of`, what each provider answers in
-- one call; `well_formed` and `length_of` for the slug of a tenant and `has_at` for an email;
-- `failure`, which events of the outbox cannot be processed; `Context` of Cost, the rounding of
-- Python's `decimal`, which leaves numbers of at most 28 digits alone; `accepts`, which rows the
-- foreign keys and the column types of the table of runs admit; `pipeline`, the services that a
-- memory is written with, `policy_of`, the stored retention policies, and `storage`, the stored
-- bytes of a tenant; `stored` and `durable`, what the database holds of a session; `name`, which
-- joins a provider and a model to a key; `cel`, the evaluator of CEL expressions; `within_limit`,
-- the answer of the rate limiter (an interface in the source); `uniform`, which is `random.uniform`
-- at a draw; `reached` and `warns`, the comparisons of a float rate with a threshold; and, for the
-- approval table, `tenant_of`, the tenant of a run.
--
-- Not modelled: logging, metrics and traces, the HTTP interface, database sessions and migrations
-- (but for the tables of runs and approvals), the clients of model providers, the queue, encryption
-- and authentication, which are input and output or calls of libraries; Unicode normalisation, the
-- classifier and the redactor of infrastructure/text; subscriptions to Redis channels; and, for the
-- time being, the budgets of tenants, the retrieval and cleanup of the long-term memory and the
-- executor.
pub mod Common
pub mod Money
pub mod RunState
pub mod Run
pub mod Approval
pub mod Policy
pub mod ToolExecution
pub mod Agent
pub mod Provider
pub mod Budget
pub mod Redis
pub mod RedisLists
pub mod Degradation
pub mod TextTools
pub mod Idempotency
pub mod Cancellation
pub mod Cost
pub mod RateLimit
pub mod Session
pub mod Memory
pub mod Tenant
pub mod User
pub mod Outbox
pub mod Tests
