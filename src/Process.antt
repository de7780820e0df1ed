-- ===== src/Process.antt =====
-- cmd/praetor-server/main.go: which program runs, and how the server starts and stops. What the
-- listeners do between the two is in Agent and in Api.
pub mod Order
pub mod Interleaved
use praetor_server.Prelude.{
  true, false, not, ◌||◌, ℕ, ℤ, String, Bool, Option, none, some, List, [], ◌∷◌, ◌++◌,
  if◌then◌else◌, ◌==◌, string_eq,
}
use praetor_server.Config.{Config, ConfigError, Loaded, loaded, invalid, load}
use praetor_server.Database.{Pgx, DbError, Connected, pool, no_pool, connect}
use praetor_server.Authority.Files.{Directory, RootError, Os}
use praetor_server.Authority.Root.{Crypto, Random, Ca, Made, made, failed, new}
use praetor_server.Cli.{Env}
use praetor_server.Cli.Flags
use praetor_server.Cli.Flags.{
  config_flags, text, Values, Parsed, parsed, wrong_usage, parse, text_of, default_config_path,
}

-- The program that the arguments ask for, with what it is given.
pub data Program : Type 0 where
  migrate_program token_program config_program server_program : List String → Program

-- the switch on os.Args[1]
unfoldable pub program_of : List String → Program
program_of [] = server_program []
program_of (name ∷ args) =
    if name == "migrate"
    then migrate_program args
    else if name == "token"
    then token_program args
    else if name == "config"
    then config_program args
    else server_program (name ∷ args)

-- What the process does, in order; an address is the one of a listener.
pub data Effect : Type 0 where
  pool_opened pool_closed : Effect
  job_started : String → Effect
  ca_ready : Ca → Effect
  grpc_served grpc_failed : String → Effect
  http_served http_failed : String → Effect
  grpc_stopped grpc_forced http_stopped http_cut : Effect

pub data StartError : Type 0 where
  flag_error help : StartError
  config_error : ConfigError → StartError
  postgres_error : DbError → StartError
  ca_error : RootError → StartError
  listen_error : String → StartError

-- os.Exit in the start, or the end of main.
pub data End : Type 0 where
  exited : StartError → End
  ended : End

-- How the goroutine of a listener fares until the server is stopped: it serves; it serves and then
-- ends with an error; it ends with an error at once, as when the address is taken; or it has not
-- started yet. An error is only logged.
pub data Listener : Type 0 where
  serves breaks refused late : Listener

-- What the process finds: the arguments of New in internal/ca, with the directory of a data
-- directory, whether net.Listen works, how the two goroutines fare and in which order they and main
-- get on (true for HTTP), and the end: whether GracefulStop returns within ten seconds, whether no
-- HTTP request is in flight after it, and whether those that are end in the time left.
pub record World : Type 0 where
  pub env : Env
  pub crypto : Crypto
  pub os : Os
  pub random : Random
  pub now : ℕ
  pub directory : String → Directory
  pub listen : String → Bool
  pub grpc : Listener
  pub http : Listener
  pub order : List Bool
  pub graceful : Bool
  pub idle : Bool
  pub drained : Bool

abbrev pub grpc_end : World → Effect
grpc_end w = if w.graceful then grpc_stopped else grpc_forced

-- the effects of a listener, from that of its start and that of its error
abbrev pub effects_of : Listener → Effect → Effect → List Effect
effects_of serves up down = up ∷ []
effects_of breaks up down = up ∷ down ∷ []
effects_of refused up down = down ∷ []
effects_of late up down = []

abbrev opened : Listener → Bool
opened serves = true
opened breaks = true
opened refused = false
opened late = false

-- the effects of two goroutines, in the order in which they get on
abbrev pub interleave : List Bool → List Effect → List Effect → List Effect
interleave [] xs ys = xs ++ ys
interleave (true ∷ order) [] ys = ys
interleave (true ∷ order) (x ∷ xs) ys = x ∷ interleave order xs ys
interleave (false ∷ order) xs [] = xs
interleave (false ∷ order) xs (y ∷ ys) = y ∷ interleave order xs ys

-- Shutdown has the context of the ten seconds, which is over when gRPC was stopped by force: then it
-- returns at once, with an error if a request is in flight.
abbrev pub http_end : World → Effect
http_end w =
    if w.idle || not (opened w.http)
    then http_stopped
    else if w.graceful
    then (if w.drained then http_stopped else http_cut)
    else http_cut

-- the effects of the gRPC listener, then the select of main
abbrev pub grpc_run : World → Config → List Effect
grpc_run w cfg =
    effects_of w.grpc (grpc_served cfg.grpc_listen) (grpc_failed cfg.grpc_listen) ++ grpc_end w ∷ []

abbrev pub http_run : World → Config → List Effect
http_run w cfg = effects_of w.http (http_served cfg.http_listen) (http_failed cfg.http_listen)

-- The two goroutines run beside main. Serve has no effect once gRPC was stopped, nor has
-- ListenAndServe once Shutdown was called; the deferred Close comes last.
abbrev pub serving : World → Config → List Effect → End × List Effect
serving w cfg before =
    if w.listen cfg.grpc_listen
    then (
      ended,
      before
          ++ (interleave w.order (http_run w cfg) (grpc_run w cfg)
              ++ http_end w ∷ pool_closed ∷ []),
    )
    else (exited (listen_error cfg.grpc_listen), before)

abbrev pub with_ca : World → Config → List Effect → Made Ca → End × List Effect
with_ca w cfg before (failed e) = (exited (ca_error e), before)
with_ca w cfg before (made ca) = serving w cfg (before ++ ca_ready ca ∷ [])

abbrev pub with_pool : World → Config → Connected → End × List Effect
with_pool w cfg (no_pool e) = (exited (postgres_error e), [])
with_pool w cfg (pool p) =
    with_ca w cfg (pool_opened ∷ job_started cfg.alert_webhook_url ∷ [])
      (new w.crypto w.os w.random w.now cfg.grpc_server_dns_names (w.directory cfg.data_dir)).0

abbrev pub with_config : World → Loaded → End × List Effect
with_config w (invalid e) = (exited (config_error e), [])
with_config w (loaded cfg) = with_pool w cfg (connect w.env.pgx cfg.postgres_dsn 0).0

abbrev pub with_flags : World → Parsed → End × List Effect
with_flags w wrong_usage = (exited flag_error, [])
with_flags w Flags.help = (exited help, [])
with_flags w (parsed v rest) = with_config w (load (w.env.files (text_of "config" v)))

-- main without a subcommand
unfoldable pub run_server : World → List String → End × List Effect
run_server w args = with_flags w (parse w.env.parse_duration args config_flags)
