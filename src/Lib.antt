-- ===== src/Lib.antt =====
-- CAM Protocol (Complete Arbitration Mesh): a verification library for the core of the repository.
--
-- The parts, with the files that model them:
-- - src/routing/rate-limiter.ts (RateLimiter): RateLimiter.antt has the state and the methods,
--   RateLimiter/Window.antt one sliding window, Sorting.antt the sort of its times.
--   RateLimiter/Recorded.antt and Tracks.antt relate the windows to the history of grants, Outcome.antt splits a check into its paths, Bound.antt, Retry.antt
--   and Stats.antt have the theorems, Tests.antt the runs.
-- - src/routing/cache-manager.ts (CacheManager): CacheManager.antt has the state and the methods,
--   CacheManager/Evict.antt, Valid.antt and Reads.antt the theorems, Tests.antt the runs. The digest of
--   a request's key is a parameter.
-- - src/core/auth-service.ts (AuthenticationService): AuthService.antt has the state and the methods,
--   AuthService/Identify.antt the requests and the ways to authenticate. The token
--   library is the parameter Jwt, with its documented laws in IsJwt; the hash of API keys and the
--   digest of certificates are parameters too. AuthService/Cases.antt splits an authentication and a
--   refresh into their paths; Revoked.antt, Sessions.antt and Access.antt have the theorems, Tests.antt
--   the runs.
-- - src/core/persistence.ts (PersistenceAdapter, InMemoryPersistence, FilePersistence): Persistence.antt,
--   with the state types of src/shared/types.ts and what JSON makes of them; Persistence/Metadata.antt
--   has the values of a state's metadata and what JSON makes of those.
-- - src/core/state-manager.ts (StateManager): StateManager.antt has the state and the methods, over an
--   adapter as a parameter; StateManager/Usage.antt has the usage of the customers. Snapshots.antt,
--   Bounded.antt, Restart.antt and Cleanup.antt have the theorems, Tests.antt the runs.
-- - src/licensing/license-manager.ts (LicenseManager): LicenseManager.antt has the state and the methods,
--   LicenseManager/Features.antt the tables of features; Gating.antt and Keys.antt have the theorems,
--   Tests.antt the runs. JSON, base64 and the HMAC are the parameter Crypto.
-- - src/collaboration/agent-registry.ts (AgentRegistry) and collaboration-engine.ts
--   (CollaborationEngine): Collaboration/Registry.antt and Engine.antt have the state and the methods;
--   Matching.antt, Covers.antt, Quality.antt and Workflow.antt the theorems, Tests.antt the runs. The
--   text of a number is the parameter show.
-- - src/routing/fastpath-router.ts (FastPathRouter): Router.antt has the steps of a request;
--   Router/Requests.antt the requests, Policies.antt the policies, Providers.antt the choice among
--   the providers, Health.antt the metrics, Execute/Clients.antt the state and the clients,
--   Execute.antt the calls of the providers. Compliance.antt, Choice.antt, Repeat.antt,
--   Percentile.antt, Metrics.antt and History.antt have the theorems, Calls.antt what they share,
--   Tests.antt the runs. The providers' packages are the parameter sdk, the places that the configuration is read
--   from the parameter sources.
-- - src/mcp (MCPClient, MCPToolRegistry, MCPGateway): Mcp/Types.antt has the types,
--   Mcp/Client.antt the client of a server, Registry.antt and Metrics.antt the registry,
--   Policies.antt, Arbitration.antt, Gateway.antt (with Gateway/Records.antt and
--   Gateway/Reports.antt) and Streaming.antt the gateway. Verdicts.antt, Selection.antt,
--   Denial.antt, Retries.antt, Calls.antt and Ownership.antt have the theorems, Tests.antt the
--   runs. The MCP package is the parameter sdk, regular expressions are the parameter patterns.
-- - src/payment/subscription-manager.ts (SubscriptionManager), with the calls of
--   src/payment/stripe-service.ts (StripeService) that it makes: Subscriptions.antt, over the Stripe
--   package as the parameter stripe; Subscriptions/Upgrade.antt has the theorems, Tests.antt the runs.
-- - src/shared/errors.ts (CAMError): Errors.antt, exceptions as values of a result type.
-- - Base.antt has the shared names with Base/Lists.antt, and Base/Sort.antt a stable sort by a
--   comparison; JsMap.antt has JavaScript's Map with text keys in insertion order, and
--   JsText.antt its text operations.
--
-- How the parts meet: the state manager stores through an adapter of Persistence.antt; the
-- services throw the errors of Errors.antt; the router holds the limiter and the cache, and the gateway
-- a limiter, in their states; the limiter, the cache, the sessions and the states are maps
-- of JsMap.antt.
--
-- How the source is read: a class is a record, a method a function from the state to the new state and
-- the result, named as in the source in snake case; `Date.now()` is an argument in milliseconds, and a
-- fresh id is an argument. A test of `undefined` or of truth is written out on Option. Loops run over
-- lists and recur on them, and the loop of the retries recurs on the attempts that are left: there is no
-- fuel. Counts, times and limits are natural numbers; costs and rates are scaled to whole numbers, with
-- the unit at the definition, so the rounding errors of binary floats are not modelled.
--
-- Not modelled: logging, telemetry, timers other than as a flag, the network, the streaming calls of the
-- providers, the audit file of the gateway, and the parts of the repository that no file above names
-- (the payment routes, validation, the Redis cache, the HTTP client, the entry points, the
-- configuration).
pub mod Base
pub mod Errors
pub mod JsMap
pub mod JsText
pub mod RateLimiter
pub mod CacheManager
pub mod AuthService
pub mod Persistence
pub mod StateManager
pub mod LicenseManager
pub mod Collaboration
pub mod Router
pub mod Mcp
pub mod Subscriptions
