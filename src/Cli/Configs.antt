-- ===== src/Cli/Configs.antt =====
-- cmd/praetor-server/configcmd.go: `config set` and `config get`.
pub mod Operands
pub mod Shown
use praetor_server.Prelude.{
  ℕ, ℤ, String, Bool, Option, none, some, List, [], ◌∷◌, codes, if◌then◌else◌, ◌==◌, string_eq,
}
use praetor_server.Result.{Result, ok, err, Conn}
use praetor_server.Store.Configs.{HostConfig, get, set_field}
use praetor_server.Api.{atoi}
use praetor_server.Cli.{
  CliError, Run, finished, exits, Env, opened, usage, unknown_subcommand, wrong_flags, help,
  expected_key_value, not_integer, store_error, with_parsed, after_open,
}
use praetor_server.Cli.Flags
use praetor_server.Cli.Flags.{
  config_flags, text, Values, Parsed, parsed, wrong_usage, parse, text_of, default_config_path, cut,
}

-- What the subcommands find beside their environment; `hosts` says which ids the table hosts has.
pub record World : Type 0 where
  pub env : Env
  pub conn : Conn
  pub hosts : String → Bool

abbrev pub Configs : Type 0
Configs = List HostConfig

pub data Output : Type 0 where
  updated : String → String → ℤ → Output
  config : HostConfig → Output

abbrev set_or : String → String → ℤ → Result (Unit {0}) × Configs → Run Output × Configs
set_or host_id key value (err e, rows) = (exits (store_error e), rows)
set_or host_id key value (ok u, rows) = (finished (updated host_id key value), rows)

abbrev set_opened : World → String → String → ℤ → Run (Unit {0}) → Configs → Run Output × Configs
set_opened w host_id key value (exits e) rows = (exits e, rows)
set_opened w host_id key value (finished u) rows =
    set_or host_id key value (set_field w.conn w.hosts host_id key value rows)

abbrev set_value :
    World → Run (Unit {0}) → String → String → Option ℤ → Configs → Run Output × Configs
set_value w access host_id key none rows = (exits not_integer, rows)
set_value w access host_id key (some value) rows = set_opened w host_id key value access rows

-- strings.SplitN(fs.Arg(1), "=", 2) has two parts or one, and strconv.Atoi reads the second
abbrev pub set_pair :
    World → Run (Unit {0}) → String → String × Option String → Configs → Run Output × Configs
set_pair w access host_id (key, none) rows = (exits expected_key_value, rows)
set_pair w access host_id (key, some value) rows =
    set_value w access host_id key (atoi (codes value)) rows

abbrev pub set_parsed : World → Parsed → Configs → Run Output × Configs
set_parsed w wrong_usage rows = (exits wrong_flags, rows)
set_parsed w Flags.help rows = (exits help, rows)
set_parsed w (parsed v []) rows = (exits usage, rows)
set_parsed w (parsed v (host_id ∷ [])) rows = (exits usage, rows)
set_parsed w (parsed v (host_id ∷ pair ∷ rest)) rows =
    set_pair w (opened w.env (text_of "config" v)) host_id (cut pair) rows

-- runConfigSet
unfoldable pub run_config_set : World → List String → Configs → Run Output × Configs
run_config_set w args rows = set_parsed w (parse w.env.parse_duration args config_flags) rows

abbrev pub got : Result HostConfig → Run Output
got (err e) = exits (store_error e)
got (ok c) = finished (config c)

abbrev pub get_parsed : World → Parsed → Configs → Run Output
get_parsed w wrong_usage rows = exits wrong_flags
get_parsed w Flags.help rows = exits help
get_parsed w (parsed v []) rows = exits usage
get_parsed w (parsed v (host_id ∷ rest)) rows =
    after_open (opened w.env (text_of "config" v)) (got (get w.conn host_id rows))

-- runConfigGet
unfoldable pub run_config_get : World → List String → Configs → Run Output
run_config_get w args rows = get_parsed w (parse w.env.parse_duration args config_flags) rows

-- runConfigCmd
unfoldable pub run_config : World → List String → Configs → Run Output × Configs
run_config w [] rows = (exits usage, rows)
run_config w (name ∷ args) rows =
    if name == "set"
    then run_config_set w args rows
    else if name == "get"
    then (run_config_get w args rows, rows)
    else (exits unknown_subcommand, rows)
