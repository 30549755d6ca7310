-- ===== src/Lib.antt =====
-- Verification of servion, a Go framework for servers: middlewares and handlers on net/http, the
-- factory that puts them on routes, and the command that binds and runs the servers.
--
-- A handler is a function from a request and the state of the program to a new state and the calls
-- that it makes on its response writer, and a response is what those calls leave, so that a
-- middleware which hands on a writer of its own is a function on those calls. What a component owns
-- (buckets, a log) is a part of the state, read and written through a Cell; the clock is a reading
-- that may change the state. Configured values are the fields of a record Config. Names follow the
-- source: Middleware is `middleware`, Match is `applies`, PostConstruct is `post_construct`.
--
-- The files and the code that they model:
-- - Base, Text, Http: Go and its standard library, as far as the program uses them: maps as
--   association lists, int as ℤ, strings and their searches, headers, requests, response writers.
--   A string is a list of characters; headers compare without regard to the case of ASCII letters.
-- - Options: ParseOptions and ParsePrefixList of utils.go.
-- - RateLimit: ratelimit_middleware.go. The goroutine of the cleaner is an event of a history, and
--   a request has its two readings of the clock.
-- - Auth: auth_middleware.go, with the interface Authenticator of api.go; Auth/Tokens:
--   auth_token_provider.go, with the hash of tokens as an argument.
-- - Jwt: jwt_auth_provider.go. golang-jwt is a record, whose one law is that an accepted token is
--   signed by the key that the key function gave for the method which the token names.
-- - Gzip: gzip_middleware.go. compress/gzip is the record Codec; its law is that what was
--   compressed is decompressed to the same bytes.
-- - Cors, RequestId, AccessLog, Metrics: cors_middleware.go, requestid_middleware.go,
--   accesslog_middleware.go and the middleware of metrics_handler.go, where Prometheus is an
--   argument.
-- - Health: healthz_handler.go, with the encoder of JSON as an argument.
-- - Factory: http_server_factory.go, and gzipWriter of utils.go. sort.Slice is an argument.
--   Factory/Chain has the middlewares together on one route, Factory/Guarded the server with its router,
--   which is an argument.
-- - Runtime: runtime.go. The stores of Shutdown are steps of a relation, and calls and readers come
--   between them in any order. Runtime/Paths is what PostConstruct and GetStats do.
-- - HttpServer: http_server.go, with the network as an argument; Serve is two steps, before and behind
--   its blocking call, which returns or panics; PanicToError of utils.go makes an error of a panic.
-- - Servers: the interface Server of api.go over its three classes. Servers/Contract is what they have in
--   common, an abstract server of four flags, over histories in which Serve starts on a bound server that is
--   not in one, Servers/Bound has servers of all classes in the loop of bindServers,
--   Servers/Together has them in the group of runServers.
-- - Scanners: scanner.go, grpc/scan.go, vrpc/scan.go, servion.go and zap_log_factory.go. glue and zap are
--   arguments; Scanners/Resolved is what a container of a scanner's beans holds.
-- - Runner: doWithServers, bindServers, addrInUseHint and runServers of utils.go, and Run of
--   run_command.go. The goroutines behind the binding are an argument, and so is each container of
--   glue.
-- - Serving: those goroutines: the group of the servers' Serve and Shutdown, the goroutine that shuts all
--   servers down and the one that waits for a signal. Each takes its steps in any order.
-- - Grpc: the module grpc: Grpc itself is auth_interceptor.go and token_auth.go, Grpc/ServerFactory is
--   grpc_server_factory.go with health.go, Grpc/Server is grpc_server.go, Grpc/Client is
--   grpc_client_factory.go. The library grpc is arguments, and what the code reads of it.
-- - JwtTool: cmd/jwttool/main.go: JwtTool itself is generate-token, JwtTool/Commands is generate-keys
--   with the choice of the command, JwtTool/Durations is parseDuration.
-- - Vrpc: the module vrpc: Vrpc itself is value_server.go and obfs.go, Vrpc/Client is
--   value_client_factory.go, Vrpc/Resilience is resilience.go. The libraries value-rpc and obfs are
--   records of what the code calls.
-- - AuthExample: examples/auth/main.go, a program of these components.
--
-- The components meet as they do in the code. The factory wraps each handler in the middlewares that
-- match its pattern; each middleware gives a Middleware, the record of its order, its test of patterns
-- and its wrapping of handlers. The bearer gate takes an Authenticator, which the token provider and
-- the JWT provider give. The runner takes servers by their operation Bind, and the health handler
-- reads the runtime. The interceptor of gRPC takes the same Authenticator as the bearer gate, the tool
-- writes the claims that the JWT provider reads, and the clients of both modules derive their
-- addresses from the properties of the servers. A server of each class is a value of AnyServer; each
-- step of a member of the group runs the method of its server.
--
-- No definition runs on fuel: the loops of the source run over finite lists, and so do these. Times and
-- durations are natural numbers of nanoseconds, and counters are natural numbers: the source's int64
-- and int do not overflow on the readings of a clock and on the sizes of requests. The time of life that
-- jwttool computes is of 64 bits and wraps around.
--
-- Not modelled: the other examples and generated code, which the framework does not run. Log calls are
-- left out everywhere.
mod Base
pub mod Text
pub mod Options
pub mod Http
pub mod RateLimit
pub mod Auth
pub mod Gzip
pub mod Cors
pub mod RequestId
pub mod AccessLog
pub mod Metrics
pub mod Factory
pub mod Runtime
pub mod Runner
pub mod Serving
pub mod Grpc
pub mod JwtTool
pub mod Vrpc
pub mod HttpServer
pub mod Health
pub mod Jwt
pub mod Servers
pub mod Scanners
pub mod AuthExample
