-- ===== src/Lib.antt =====
-- Canalis: bounded spending of an agent's task over payment channels.
--
-- A task carries a budget and a policy. The service spreads the budget over the providers
-- (packages/application/src/service.ts). The orchestrator (packages/core/src/route.ts) reserves a
-- channel ceiling for each provider, asks the policy (packages/core/src/policy.ts) before every
-- paid call, and hands the call to the provider request (packages/providers/src/execute.ts), which
-- checks quote and authorization against each other. At the end of a task the channels are
-- finalized on chain (packages/solana/src/finalization.ts); what is signed for a channel is the
-- payload of a voucher (packages/solana/src/voucher.ts). The server
-- (apps/web/src/server/security.ts) runs every request that changes something under an idempotency
-- record and the lock of its resource, and counts requests, in the tables of
-- packages/persistence/src/security.ts; the route of a task's lifecycle
-- (apps/web/src/app/api/tasks/[id]/lifecycle/route.ts) submits, cancels, archives and copies tasks.
--
-- Files and code:
--   Base             integers, lists, dictionaries, texts, bytes, actions, results
--   Core/Domain      packages/core/src/domain.ts
--   Core/Policy      packages/core/src/policy.ts: evaluateSpend, applyApprovedSpend
--   Core/Flow        packages/core/src/route.ts: its types and the orchestrator's fields
--   Core/Authorize   packages/core/src/route.ts: the authorizer, the completion of a flow,
--                    recordSettlement, getPaymentGraph
--   Core/Route       packages/core/src/route.ts: execute; Core/Route/Reserve: the constructor
--   Providers/Types  packages/providers/src/types.ts
--   Providers/Execute packages/providers/src/execute.ts: executeProviderRequest
--   Solana/Types     packages/solana/src/types.ts
--   Solana/Explorer  packages/solana/src/finalization.ts: solanaExplorerTransactionUrl
--   Solana/Finalization packages/solana/src/finalization.ts: finalizeProviderChannel (in Provider)
--                    and finalizeTaskChannels (in Task)
--   Solana/Voucher   packages/solana/src/voucher.ts
--   Solana/Live      packages/solana/src/live-x402.ts: assertLiveSettlementAccounting,
--                    recoverRateLimitedBroadcast
--   Application/Reservations packages/application/src/service.ts: allocateReservations
--   Application/Tasks packages/application/src/service.ts: createTask; contracts.ts: parseUsdc;
--                    repository.ts: the stored task and channel
--   Application/Roles packages/application/src/workspace.ts: the permissions of the roles
--   Application/Errors packages/application/src/errors.ts
--   Application/Details packages/application/src/service.ts: requireTask, getTask; repository.ts: the
--                    repository's interface
--   Application/Execution packages/application/src/service.ts: executeTask, with liveProviders and
--                    deterministicRequest
--   Persistence/Idempotency, Persistence/Locks, Persistence/RateLimit
--                    packages/persistence/src/security.ts: beginIdempotency, completeIdempotency,
--                    abandonIdempotency; acquireMutationLock, releaseMutationLock; consumeRateLimit
--   Persistence/Tasks packages/persistence/src/tasks.ts: setStatus
--   Web/Errors       apps/web/src/server/api.ts: apiErrorResponse
--   Web/Requests     apps/web/src/server/security.ts: requestFingerprint, idempotencyKey
--   Web/Mutation     apps/web/src/server/security.ts: runIdempotentMutation; Web/Mutation/Store: the
--                    repository of the tables, as its calls reach it
--   Web/Lifecycle    apps/web/src/app/api/tasks/[id]/lifecycle/route.ts: the status changes, and the
--                    copies in Web/Lifecycle/Copies
--   Web/Amounts      the same route: atomicToUsd
--   Samples          data of the tests, which stand in the modules named Tests
--
-- Correspondence: names are the source's in snake case. A bigint is an integer without bounds, and
-- a check of its range is written out. An asynchronous call is an action on a world, which keeps
-- what it changed before a throw. Code without an `await` runs in one piece, so concurrent calls
-- are sequences of the steps of Core/Authorize/History; a call of `execute` is modelled with the
-- steps of other calls before or after it. Objects that the code shares by reference (a provider's
-- state, a recorded flow) are found again by their key or place.
--
-- A table of the database is a function from its primary key to its row, and a statement is one
-- step at a time that is an argument, in microseconds. What runs between the statements of different
-- callers is a relation of steps (Persistence/Locks/Exclusion, Persistence/Idempotency/Statements, and
-- with the calls that run them Persistence/Idempotency/Statements/Turns);
-- a call of several statements, such as beginIdempotency, is also modelled in one piece.
--
-- Parameters: provider adapters, the payment-channel adapter, the connection that
-- reports statuses, the hash of a response and the clock are arguments, and so are the identifier
-- of a new task, the names of the sandbox, SHA-256, random identifiers, JSON responses and the
-- constructor of responses, the initialization of the server's storage, the handler of a request and the repository of executeTask. A lookup in a plain object reads its own keys only.
--
-- Bounds: all loops run over lists; the decimal printing of a number n has fuel n + 1, and each
-- round divides by ten. The loop of allocateReservations has the budget as fuel, since every
-- round gives away one unit at least. The polling loop counts its attempts down.
--
-- Not modelled: the user interface, the sessions and most routes of the web application, the other SQL
-- repositories, the rest of the application layer, the protocol adapters and the gateway class of
-- live-x402.ts, which are views, HTTP, database or library calls.
pub mod Base
pub mod Providers
pub mod Core
pub mod Solana
pub mod Application
pub mod Persistence
pub mod Samples
pub mod Web
