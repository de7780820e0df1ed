-- ===== src/Store/Configs.antt =====
-- internal/db/store/configs.go: the table host_configs.
pub mod Versions
pub mod Abstract
pub mod Refinement
use praetor_server.Prelude.{
  ℕ, ◌+◌, String, Bool, Option, none, some, List, [], ◌∷◌, ◌++◌, if◌then◌else◌, ◌==◌, string_eq, ℤ,
  pos, fits,
}
use praetor_server.Result.{
  Result, ok, err, foreign_key_violation, not_updatable, Conn, exec, out_of_range,
}
use praetor_server.Sql.{select, first, update_where, exists_where}

pub record HostConfig : Type 0 where
  pub host_id : String
  pub config_version : ℕ
  pub heartbeat_interval_seconds : ℤ
  pub metric_collection_interval_seconds : ℤ
  pub log_sources : List String
  pub updated_at : ℕ

abbrev pub has_host : String → HostConfig → Bool
has_host host_id c = c.host_id == host_id

-- what Get returns for a host that has no row: UpdatedAt is the zero time
abbrev pub default_config : String → HostConfig
default_config host_id = record {
  host_id = host_id;
  config_version = 0;
  heartbeat_interval_seconds = pos 30;
  metric_collection_interval_seconds = pos 15;
  log_sources = [];
  updated_at = 0;
}

abbrev pub row_or_default : String → Option HostConfig → HostConfig
row_or_default host_id none = default_config host_id
row_or_default host_id (some c) = c

unfoldable pub get : Conn → String → List HostConfig → Result HostConfig
get c host_id rows =
    (exec c rows (ok (row_or_default host_id (first (select (has_host host_id) rows))), rows)).0

-- the two columns that SetField may write
pub data Field : Type 0 where
  heartbeat_interval metric_collection_interval : Field

abbrev pub allowed : String → Option Field
allowed field =
    if field == "heartbeat_interval_seconds"
    then some heartbeat_interval
    else if field == "metric_collection_interval_seconds"
    then some metric_collection_interval
    else none

abbrev pub with_field : Field → ℤ → HostConfig → HostConfig
with_field heartbeat_interval v c = record c { heartbeat_interval_seconds = v }
with_field metric_collection_interval v c = record c { metric_collection_interval_seconds = v }

-- the row that the INSERT writes: version 1, the other columns at their defaults
abbrev pub fresh_row : ℕ → String → Field → ℤ → HostConfig
fresh_row now host_id f v =
    with_field f v (record (default_config host_id) { config_version = 1; updated_at = now })

abbrev pub bumped : ℕ → Field → ℤ → HostConfig → HostConfig
bumped now f v c =
    with_field f v (record c { config_version = c.config_version + 1; updated_at = now })

-- the statement, with the column that was allowed; an INTEGER holds 32 bits
unfoldable upsert_field :
    Conn
    → (String → Bool)
    → String
    → Field
    → ℤ
    → List HostConfig
    → Result (Unit {0}) × List HostConfig
upsert_field c hosts host_id f v rows = exec c rows (
    if exists_where (has_host host_id) rows
    then (ok tt, update_where (has_host host_id) (bumped c.now f v) rows)
    else if hosts host_id
    then (ok tt, rows ++ fresh_row c.now host_id f v ∷ [])
    else (err foreign_key_violation, rows))

unfoldable set_allowed :
    Conn
    → (String → Bool)
    → String
    → Option Field
    → ℤ
    → List HostConfig
    → Result (Unit {0}) × List HostConfig
set_allowed c hosts host_id none v rows = (err not_updatable, rows)
set_allowed c hosts host_id (some f) v rows =
    if fits 31 v then upsert_field c hosts host_id f v rows else (err out_of_range, rows)

unfoldable pub set_field :
    Conn
    → (String → Bool)
    → String
    → String
    → ℤ
    → List HostConfig
    → Result (Unit {0}) × List HostConfig
unfolding set_allowed upsert_field
set_field c hosts host_id field v rows = set_allowed c hosts host_id (allowed field) v rows
