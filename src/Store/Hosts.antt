-- ===== src/Store/Hosts.antt =====
-- internal/db/store/hosts.go and the statement of internal/staleness/staleness.go: the table hosts.
pub mod Keys
pub mod Rows
use praetor_server.Prelude.{
  ℕ, ◌+◌, ◌*◌, String, Bool, true, false, not, ◌&&◌, Option, none, some, List, [], ◌∷◌, ◌++◌, ltb,
  if◌then◌else◌, ◌==◌, is_some_of, string_eq, ℤ,
}
use praetor_server.Result.{Result, ok, err, no_rows, unique_violation, Conn, exec}
use praetor_server.Sql.{select, first, update_where, exists_where, order_by}

-- A nil slice or map is `none`, since it is stored as JSON null and read back as nil.
pub record Host : Type 0 where
  pub id : String
  pub hostname : String
  pub os : String
  pub os_version : Option String
  pub kernel : Option String
  pub arch : String
  pub cpu_cores : Option ℤ
  pub memory_bytes : Option ℤ
  pub machine_id : Option String
  pub ip_addresses : Option (List String)
  pub labels : Option (List (String × String))
  pub first_seen_at : ℕ
  pub last_heartbeat_at : Option ℕ
  pub status : String
  pub agent_version : Option String
  pub org_id : String

abbrev pub Hosts : Type 0
Hosts = List Host

abbrev pub has_id : String → Host → Bool
has_id id h = h.id == id

-- the WHERE clause of a lookup by machine, and the key of the unique index
abbrev pub has_machine : String → String → Host → Bool
has_machine machine_id org_id h = is_some_of h.machine_id machine_id && h.org_id == org_id

-- Another row with the machine and the organisation of `h`: the index leaves NULL out.
abbrev pub clashes : Host → Host → Bool
clashes h r = elim h.machine_id [
  | none ↦ false
  | some m ↦ has_machine m h.org_id r && not (r.id == h.id)
]

-- ON CONFLICT (id) DO UPDATE SET ...: all columns but id and first_seen_at
abbrev pub merged : Host → Host → Host
merged h r = record h { id = r.id; first_seen_at = r.first_seen_at }

unfoldable pub upsert : Conn → Host → Hosts → Result (Unit {0}) × Hosts
upsert c h rows = exec c rows (
    if exists_where (clashes h) rows
    then (err unique_violation, rows)
    else if exists_where (has_id h.id) rows
    then (ok tt, update_where (has_id h.id) (merged h) rows)
    else (ok tt, rows ++ record h { first_seen_at = c.now } ∷ []))

abbrev one_row : Option Host → Result Host
one_row none = err no_rows
one_row (some h) = ok h

unfoldable pub get_by_id : Conn → String → Hosts → Result Host
get_by_id c id rows = (exec c rows (one_row (first (select (has_id id) rows)), rows)).0

unfoldable pub get_by_machine_id : Conn → String → String → Hosts → Result Host
get_by_machine_id c machine_id org_id rows =
    (exec c rows (one_row (first (select (has_machine machine_id org_id) rows)), rows)).0

abbrev pub beat : ℕ → String → Host → Host
beat t status h = record h { last_heartbeat_at = some t; status = status }

-- The rows that the UPDATE affects are not counted: an unknown id is no error.
unfoldable pub update_heartbeat : Conn → String → ℕ → String → Hosts → Result (Unit {0}) × Hosts
update_heartbeat c id t status rows =
    exec c rows (ok tt, update_where (has_id id) (beat t status) rows)

-- `collation` says which of two names ORDER BY hostname puts first, or that they tie.
unfoldable pub list : (String → String → Bool) → Conn → String → Hosts → Result Hosts
list collation c org_id rows =
    (exec c rows (
      ok (
          order_by (λ a b. collation a.hostname b.hostname)
            (select (λ h. h.org_id == org_id) rows)),
      rows,
    )).0

-- HeartbeatTimeout, in nanoseconds
abbrev pub heartbeat_timeout : ℕ
heartbeat_timeout = 90 * 1_000_000_000

-- last_heartbeat_at < NOW() - 90 s; a NULL compares as not smaller.
abbrev pub missed : ℕ → Option ℕ → Bool
missed now none = false
missed now (some t) = ltb (t + heartbeat_timeout) now

abbrev pub is_stale : ℕ → Host → Bool
is_stale now h = h.status == "online" && missed now h.last_heartbeat_at

abbrev pub to_offline : Host → Host
to_offline h = record h { status = "offline" }

-- The sweep: UPDATE ... RETURNING id, hostname.
unfoldable pub mark_offline : Conn → Hosts → Result Hosts × Hosts
mark_offline c rows =
    exec c rows (ok (select (is_stale c.now) rows), update_where (is_stale c.now) to_offline rows)
