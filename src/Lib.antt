-- ===== src/Lib.antt =====
-- A verification library of MaxwellGoSpine, an HTTP service in Go that keeps users.
--
-- A request passes a chain of middleware (internal/middleware), reaches a REST handler
-- (internal/http/handlers), which calls the user service (internal/core/usersvc.go), which
-- validates and calls a repository of users, in memory or in PostgreSQL. Errors go back as values
-- and become statuses in internal/errs/http.go. The GraphQL resolvers of user.resolvers.go call
-- the same service; those that /v1/graphql runs are generated stubs.
-- internal/core/cached_usersvc.go stands before the service where a cache is configured.
--
-- What models what
--   Prelude        Boolean tests on native numbers, lists and association lists.
--   Go             64-bit signed integers with their wrap-around (`add64`, `sub64`, `mul64`), errors
--                  and `errors.Is`, calls that return, fail or panic (`Result`, `M`), and the
--                  functions of package strings that the program uses, on native texts.
--   Core.User      internal/core/user.go and the interfaces UserRepository, UserService, UnitOfWork
--                  and TxStarter, as records of operations on a state.
--   Core.Service   internal/core/usersvc.go: Create, Get, Update, Delete, List and WithTx.
--   Core.Memory    internal/core/user_repo_memory.go: every method of InMemoryUserRepo.
--   Cache          internal/cache/cache.go: `Layered`, over a local cache and an optional Redis.
--   Core.Cached    internal/core/cached_usersvc.go: every method of cachedUserService. InMemory puts
--                  it over the user service over the in-memory repository.
--   Http           Handlers as functions from a request, a header map and the program's state to the
--                  calls that they make on the response writer; Http.Response is how net/http turns
--                  these calls into a response.
--   Middleware     internal/middleware/: KeySet and ApiKey for apikey.go, Cors for cors.go, Etag for
--                  etag.go, Wrappers for requestid.go, recover.go, logging.go, metrics.go,
--                  timeout.go and compress.go.
--   Api            internal/http/render/json.go and internal/errs/http.go (Render), and
--                  internal/http/handlers/users.go (Users). Users.Sequences: sequences of requests.
--   Config         internal/config/config.go: `Load` and `Validate` over an environment function.
--   Postgres       internal/storage/postgres/user_repo.go: UserRepo, and txUserRepo in Transaction,
--                  over a record of what database/sql does with a statement; Pool has db.go.
--   Graph          graph/resolver/user.resolvers.go. Schema has the resolvers of
--                  internal/http/graphql/schema.go, Schema.Build the objects that it declares, and
--                  Schema.Sdl those of graph/schema.graphqls. Executor has
--                  graph/generated/generated.go: Args, Objects, Lists, Roots and Complexity its
--                  functions, Introspect the objects of introspection (Enough: their fuel), Stubs the resolvers of
--                  graph/resolver/schema.resolvers.go; the other modules below it are proofs.
--                  Server has graph/server/handler.go, and Introspection what package
--                  introspection of gqlgen gives.
--   Router         internal/http/router/router.go: the stack of middleware, the routes and their
--                  handlers. Quiet, Guarded: who can change the state. Bodies, Ready: what a client
--                  gets through the whole stack.
--   Cmd            Server: cmd/server/main.go up to the server that listens. Api: cmd/api/main.go.
--                  Life: how both end, as steps of two goroutines and of the environment: the signal, the
--                  deadline of Shutdown, and the requests and queries that are still running.
--   Log, Metrics   internal/log/logger.go and internal/metrics/metrics.go.
--   Tests          Runs of the theorems at concrete inputs.
--
-- Conventions. A Go int is the library's ℤ with results brought back to 64 bits; a uuid.UUID is
-- one number; a time is a number of nanoseconds. A map is an association list. What a call draws
-- from outside (`time.Now`, `uuid.New`, the order in which it goes through a map) is in the record
-- `Env`. Loops are structural recursion. Three have fuel: the printing of a number, 20 digits, and
-- a 64-bit number has no more; the calls of a response handler in Graph.Executor.Once, of which
-- two are enough; and the types below a type of introspection, which have as much as the
-- selections of the query nest.
--
-- Parameters, for code that is not in this repository: the table of unicode.ToLower beyond ASCII,
-- mail.ParseAddress, uuid.Parse, the validator, the JSON codec, SHA-256, the compressor, the order
-- in which sort.Slice leaves users of the same time, database/sql with begin, commit and rollback,
-- chi's mux and heartbeat, zap, the local cache and Redis, the environment, time.ParseDuration,
-- time.Parse, time.Time.Format, and NewSchema of graphql-go, packages handler and playground of
-- gqlgen, and its package graphql: the collection of fields, scalars, its middleware and error
-- search, and what package introspection finds in the schema. What a theorem needs of them is
-- among its hypotheses.
--
-- Not modelled: the contexts of child fields in graph/generated/generated.go, which the executor
-- never asks for, its deferred groups, which it never makes, `Execute` of
-- internal/http/graphql/schema.go, a call of graphql.Do, logger.Sync, and the lines that are only
-- logged. The fields of a query and the users of a list, which the executor may run at once, run
-- one after another. Calls on the repository run one after another, as its mutex makes them; of
-- goroutines only the two of the main programs are modelled.

mod Prelude
pub mod Go
pub mod Config
pub mod Cache
pub mod Core
pub mod Postgres
pub mod Http
pub mod Middleware
pub mod Api
pub mod Graph
pub mod Router
pub mod Log
pub mod Metrics
pub mod Cmd
mod Tests
