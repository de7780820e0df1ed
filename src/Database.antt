-- ===== src/Database.antt =====
-- internal/db/db.go: the connection pool and the migrations. pgxpool and goose are parameters: Pgx and
-- Goose say what their calls give.
pub mod Pools
use praetor_server.Text.{trim_right}
use praetor_server.Prelude.{Bytes}
use praetor_server.Prelude.{ℕ, suc, ◌*◌, ◌-◌, String, Bool, Option, none, some, if◌then◌else◌}

pub record PoolConfig : Type 0 where
  pub dsn : String
  pub max_conns : ℕ
  pub max_conn_lifetime : ℕ
  pub health_check_period : ℕ

-- pgxpool: ParseConfig with the defaults of the library, NewWithConfig and Ping
pub record Pgx : Type 0 where
  pub parse_config : String → Option PoolConfig
  pub new : PoolConfig → Bool
  pub ping : PoolConfig → Bool

pub data DbError : Type 0 where
  parse_error connect_error ping_error : DbError
  dialect_error up_error : DbError

-- A pool that can be used, or an error, with the number of pools that are open.
pub data Connected : Type 0 where
  pool : PoolConfig → Connected
  no_pool : DbError → Connected

abbrev pub tuned : PoolConfig → PoolConfig
tuned cfg = record cfg {
  max_conns = 25;
  max_conn_lifetime = 3600 * 1_000_000_000;
  health_check_period = 30 * 1_000_000_000;
}

-- Close
abbrev pub close : ℕ → ℕ
close n = n - 1

abbrev pub pinged : PoolConfig → Bool → ℕ → Connected × ℕ
pinged cfg answers n = if answers then (pool cfg, n) else (no_pool ping_error, close n)

abbrev pub opened : Pgx → PoolConfig → ℕ → Connected × ℕ
opened p cfg n = if p.new cfg then pinged cfg (p.ping cfg) (suc n) else (no_pool connect_error, n)

abbrev connect_with : Pgx → Option PoolConfig → ℕ → Connected × ℕ
connect_with p none n = (no_pool parse_error, n)
connect_with p (some cfg) n = opened p (tuned cfg) n

-- Connect, when `n` pools are open
unfoldable pub connect : Pgx → String → ℕ → Connected × ℕ
connect p dsn n = connect_with p (p.parse_config dsn) n

-- The schema of the database is of any type; a failed migration may leave the ones before it done.
module _ (S : Type 0) where
  pub record Goose : Type 0 where
    pub set_dialect : Bool
    pub up : S → Bool × S
    pub down : S → Bool × S
    pub status : S → Bool
    pub version : S → Bool

module _ {S : Type 0} where
  abbrev migrated : Bool × S → Option DbError × S
  migrated (worked, s) = (if worked then none else some up_error, s)

  -- Migrate
  unfoldable pub migrate : Goose S → S → Option DbError × S
  migrate g s = if g.set_dialect then migrated (g.up s) else (some dialect_error, s)

pub data Level : Type 0 where
  info error : Level

-- slogGooseLogger: one line of the log for a message, without its line ends. Fatalf does not end the
-- process.
pub record LogLine : Type 0 where
  pub level : Level
  pub message : Bytes

unfoldable pub fatalf : Bytes → LogLine
fatalf message = record { level = error; message = trim_right b'\n' message }

unfoldable pub printf : Bytes → LogLine
printf message = record { level = info; message = trim_right b'\n' message }
