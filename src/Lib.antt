-- ===== src/Lib.antt =====
-- praetor-server: the server of a fleet of agents. An agent enrolls with a one-time token over gRPC and
-- gets a client certificate; with it, it opens one stream on which it sends heartbeats, metrics, logs,
-- command results and security events, and gets configuration and commands. Operators issue tokens and
-- commands over a REST API. The state is in Postgres, but for the registry of streams and the buckets
-- of the rate limit, which are in memory.
--
-- The parts, by file (paths of the code from the repository's root):
--   Prelude, Result, Dict, Sql: shared names, errors as values, Go maps, and the SQL that the stores
--     run, over a table as the list of its rows; a Conn says whether one statement reaches the
--     database, and its NOW().
--   Store/Tokens, Hosts, Identities, Commands, Configs, SecurityEvents: internal/db/store, one function
--     for each method (get_by_id for GetByID), with the constraints of internal/db/migrations. The
--     statements of Enroll and of the staleness job stand with the table they write.
--   Token: internal/token/token.go. A Go string that is walked is the list of its bytes.
--   Enrollment: internal/enrollment/service.go. Enroll runs through re_enroll, shape, authenticate,
--     resolve_host_id, certified, link_token and record_identity, with a Conn for each statement;
--     those up to authenticate are in Enrollment/Callers.
--   Authority: IssueClient of internal/ca/ca.go, over parsed requests. Authority/Serial has
--     randomSerial, Authority/Files the directory `ca` as a map from names to files, with what the
--     operating system does with each call as an argument, and writeFile; Authority/Root has New,
--     generate and load.
--   Peer: the interceptors of cmd/praetor-server/main.go and hostIDFromStream.
--   Agent: internal/agent/service.go with ServerTLSConfig: one call of a client, from its certificate
--     through the interceptors to Enroll or Connect.
--   Stream/Registry, Stream/Handler: internal/stream. Connect runs over the list of what its select
--     picks; the goroutines that it starts are tasks, run_task says what they write, and
--     Stream/Handler/Goroutines runs them in any order, each with its own answer of the database.
--   ConfigPush: internal/configpush/service.go.
--   Command/RateLimit, Command/Broker: internal/command. Issue is limited, build, store, after_store
--     and push, one after the other.
--   Staleness: internal/staleness/staleness.go.
--   Api/Auth, Tokens, Commands, Queries: the handlers of internal/api, on decoded requests. Api/Routes:
--     Routes, with what net/http's ServeMux does with a method and the segments of a path.
--   Config: internal/config/config.go.
--   Loki, Metrics, Http: the two writers of internal/storage: what they post, and what they make of the
--     answer.
--   Text: strings.TrimRight.
--   Database: internal/db/db.go.
--   Process: main of cmd/praetor-server/main.go, as the list of what it does; the goroutines of the two
--     listeners run beside it, in an order that the world gives.
--   Cli: the subcommands of cmd/praetor-server. Cli/Flags is Parse of the package flag for texts, switches
--     and durations; Cli/Tokens, Configs and Migrate run token.go, configcmd.go and migrate.go from their
--     arguments to their exit.
--   Tests: runs on concrete inputs.
--
-- How the parts interact: Enroll writes tokens, hosts and identities; the stream handler writes hosts
-- and the registry and hands tasks to the broker, the writers and the push; the broker reads the
-- registry and writes command_executions; the REST handlers call the stores and the broker. Process
-- makes the CA and starts the two servers, Agent and Api/Routes; the subcommands work on the same tables
-- beside them. Store/Configs/Abstract specifies the configuration store as a map, and
-- Command/RateLimit/Isolation the limit of commands as a limiter for one host.
--
-- Numbers: instants and durations are nanoseconds in the native ℕ, and signed values are ℤ. The
-- conversions and products that can wrap around do so (int32 in ConfigPush, ttl_of in Api/Tokens), and
-- set_field refuses what an INTEGER column cannot hold. The loop of migrate over its index runs on fuel,
-- one round for each argument and one more, which is enough by Cli/Migrate/Arguments; every other loop
-- runs over a list. Concurrency: a mutex or a statement makes one step, and interleavings are lists of
-- steps (SingleUse, Keys, Sessions, Validity) or orders that the world gives (Goroutines, Process).
--
-- Not modelled: TLS, X.509, PEM, SHA-256, ULIDs, JSON, time.ParseDuration, pgxpool, goose and the
-- numbers of the generated enum of tiers, which are parameters; the layout of what is printed and
-- logged; the work of the listeners between the calls.
pub mod Prelude
pub mod Result
pub mod Command
pub mod Dict
pub mod Text
pub mod Database
pub mod Http
pub mod Cli
pub mod Process
pub mod Peer
pub mod Stream
pub mod Sql
pub mod Staleness
pub mod Store
pub mod Token
pub mod Authority
pub mod Agent
pub mod Enrollment
pub mod ConfigPush
pub mod Api
pub mod Config
pub mod Loki
pub mod Metrics
pub mod Tests
