-- ===== src/Lib.antt =====
-- platform-mihomo-service: a gRPC service that keeps game-account credentials for bindings, behind
-- signed service tickets. A handler (internal/service) verifies the ticket (internal/data), builds a
-- scope guard from its claims (internal/usecase/scope_guard.go), and runs a use case
-- (internal/usecase) over repositories (internal/data) on MySQL and Redis, an upstream client and a
-- cipher.
--
-- Files, and the code they model:
--   Base, Outcome: shared names, numbers, texts, results, and the monad of a call that may fail and
--     changes the state of the world.
--   AccountKey: internal/usecase/platform_account_key.go.
--   Scope: internal/usecase/scope_guard.go, toScopeGuard of internal/service/binding_mapper.go,
--     scopedGuard and scopedGuardForPlatformAccount of internal/service/mihomo_account.go.
--   Biz, Biz/Repositories: internal/biz and internal/platform/mihomo/client.go. The interfaces are
--     records of calls on an abstract state S.
--   Store: the rows of internal/data/model, and gorm, go-redis, the client, the cipher and the clock
--     as one record of calls, World. Store/Laws.antt states their documented behaviour on a view of
--     the state; Store/Memory.antt has a world in memory that meets it, where the case of ASCII letters
--     is not told apart and times are kept to milliseconds.
--   Data: the repositories of internal/data, one module each, with the cache of artifacts beside.
--   Ticket: internal/data/ticket_verifier.go and the resolver of internal/data/jwks_verifier.go.
--   Api: the messages of api/mihomo/v1/mihomo_account.proto.
--   Usecase: internal/usecase, one module for each use case, over Biz/Repositories.
--   Service: internal/service, all handlers of the three services, with the mapping of errors.
--   Service/SharedMessages, Service/GenericMessages: the messages of proto-contracts, with the fields
--     that internal/service/mihomo_credential_service.go and platform_service_adapter.go set.
--   Service/Requests: the requests of the three services, and sequences of them.
--   Modules named Keeps say what each layer leaves of the tables, with one rule for each way to build
--     a call; modules named Permits, what holds where a handler succeeds.
--   Wiring: cmd/platform-mihomo-service/main.go, the use cases and services over the repositories,
--     and the theorems that run through all layers.
--   Wiring/Bootstrap: validateBootstrap and newTicketVerifierFromSecurity of the same file, and the
--     constructors of internal/data/ticket_verifier.go.
--   Crypto: internal/crypto/blob.go.
--   Upstream: internal/platform/mihomo/client_stub.go, and the use cases on the client of main.
--   Server: internal/server/grpc.go.
--   IntegrationEnv: internal/testutil/integrationenv/env.go and cmd/integration-doctor/main.go.
--
-- Correspondence: an operation of the source is a function of the same name in snake case; its
-- receiver's fields are a section parameter (a World, Ports, a TicketVerifier, a Service). A returned
-- error is `err`; a nil pointer is `none`. An id is a uint64, held as a natural number: no code
-- computes with one, and AccountKey checks the bound where a text is read. A time is a count of
-- nanoseconds; a duration wraps in an int64 as in Go. All recursion is structural but for the search
-- of FindRepoRoot, which gets two rounds more than the path has characters: each step up shortens the
-- path or ends at a top.
--
-- Assumed of other packages (Store/Laws.antt): a statement changes no other table, and one that
-- fails changes nothing; a query lists the matching rows by id; an upsert updates the row in the
-- way, where the columns of the conflict are the only unique key in the way; a transaction that
-- fails is rolled back in the database, not in Redis. Queries and unique keys compare texts by
-- their weights under the collation of the tables, utf8mb4_unicode_ci in initialize/migrate/sql,
-- the parameter `collate`; comparisons in Go are exact. A DATETIME(3) column keeps what the
-- parameter `datetime` gives of a time. The JWT library is the parameter `parse` of a verifier;
-- the theorems that need it assume that parsing does not change the database. Calls are taken one
-- after another: interleavings of requests are not modelled.
--
-- Not modelled: the libraries of the JWT, JSON, PEM, AES, GCM and base64 formats, which are parameters,
-- generated code, the transport and the loading of the configuration, which are the frameworks',
-- the run of the migrations, the precision to which the driver cuts a time in a query's argument, and
-- the session that a context carries (internal/data/tx_context.go): the model has one.
pub mod Base
pub mod Outcome
pub mod AccountKey
pub mod Biz
pub mod Scope
pub mod Store
pub mod Api
pub mod Usecase
pub mod Data
pub mod Ticket
pub mod Service
pub mod Wiring
pub mod IntegrationEnv
pub mod Crypto
pub mod Upstream
pub mod Server
