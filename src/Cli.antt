-- ===== src/Cli.antt =====
-- cmd/praetor-server: the subcommands of the program, from their arguments to their exit status. What
-- they print is the value that a run ends with.
pub mod Flags
pub mod Tokens
pub mod Configs
pub mod Migrate
use praetor_server.Prelude.{
  ◌≡◌, refl, ◌⊎◌, inl, inr, ℕ, ℤ, String, Option, none, some, List, [], ◌∷◌,
}
use praetor_server.Result.{Error}
use praetor_server.Cli.Flags
use praetor_server.Cli.Flags.{Parsed, parsed, wrong_usage, Values}
use praetor_server.Config.{Config, ConfigError, Loaded, loaded, invalid, load}
use praetor_server.Database.{Pgx, DbError, Connected, pool, no_pool, connect}

pub data CliError : Type 0 where
  usage unknown_subcommand wrong_flags help : CliError
  label_required ttl_too_long not_generated expected_key_value not_integer : CliError
  config_error : ConfigError → CliError
  db_error migration_error : DbError → CliError
  migration_failed : CliError
  store_error : Error → CliError

-- A run ends with what it prints, or with an error and os.Exit.
pub data Run (A : Type 0) : Type 0 where
  finished : A → Run A
  exits : CliError → Run A

-- the exit status: the package flag exits with 2, and with 0 after its help
abbrev pub status_of : CliError → ℕ
status_of wrong_flags = 2
status_of help = 0
status_of _ = 1

-- What a run finds: the file at a path, opened and decoded, time.ParseDuration, and the database.
pub record Env : Type 0 where
  pub files : String → Option Config
  pub parse_duration : String → Option ℤ
  pub pgx : Pgx

abbrev connected : Connected × ℕ → Run (Unit {0})
connected (pool cfg, n) = finished tt
connected (no_pool e, n) = exits (db_error e)

abbrev configured : Env → Loaded → Run (Unit {0})
configured e (invalid x) = exits (config_error x)
configured e (loaded cfg) = connected (connect e.pgx cfg.postgres_dsn 0)

-- config.Load and db.Connect, with which every subcommand begins once its arguments are read
unfoldable pub opened : Env → String → Run (Unit {0})
opened e path = configured e (load (e.files path))

-- fs.Parse, with ExitOnError
abbrev pub with_parsed : {A : Type 0} → Parsed → (Values → List String → Run A) → Run A
with_parsed wrong_usage next = exits wrong_flags
with_parsed Flags.help next = exits help
with_parsed (parsed v rest) next = next v rest

abbrev pub after_open : {A : Type 0} → Run (Unit {0}) → Run A → Run A
after_open (exits e) next = exits e
after_open (finished u) next = next

pub Run-cases :
    {A : Type 0} (r : Run A) → ((e : CliError) × (r ≡ exits e)) ⊎ ((a : A) × (r ≡ finished a))
Run-cases (exits e) = inl (e, refl)
Run-cases (finished a) = inr (a, refl)
