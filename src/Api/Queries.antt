-- ===== src/Api/Queries.antt =====
-- internal/api/handler.go: the handlers of hosts and of security events.
pub mod Bounds
use praetor_server.Prelude.{
  ℕ, ◌-◌, ◌*◌, ℤ, pos, String, Bool, Option, none, some, List, [], ◌∷◌, map, Bytes, if◌then◌else◌,
  ◌==◌, string_eq,
}
use praetor_server.Result.{Error, Result, ok, err, no_rows, Conn}
use praetor_server.Store.Hosts
use praetor_server.Store.Hosts.{Host, Hosts}
use praetor_server.Store.SecurityEvents
use praetor_server.Store.SecurityEvents.{SecurityEvent, SecurityEvents}
use praetor_server.Api.{
  ApiError, Reply, failure, success, bad_limit, bad_since, not_found, internal, limit_of,
}

-- A text, a number or an instant that is nil is the zero value; 0 stands for the zero time.
pub record HostResponse : Type 0 where
  pub id : String
  pub hostname : String
  pub os : String
  pub os_version : String
  pub kernel : String
  pub arch : String
  pub cpu_cores : ℤ
  pub memory_bytes : ℤ
  pub machine_id : Option String
  pub ip_addresses : List String
  pub labels : List (String × String)
  pub first_seen_at : ℕ
  pub last_heartbeat_at : ℕ
  pub status : String
  pub agent_version : String
  pub org_id : String

abbrev pub or_zero {ℓ} : {A : Type ℓ} → A → Option A → A
or_zero zero_value none = zero_value
or_zero zero_value (some a) = a

abbrev pub to_host_response : Host → HostResponse
to_host_response h = record {
  id = h.id;
  hostname = h.hostname;
  os = h.os;
  os_version = or_zero "" h.os_version;
  kernel = or_zero "" h.kernel;
  arch = h.arch;
  cpu_cores = or_zero (pos 0) h.cpu_cores;
  memory_bytes = or_zero (pos 0) h.memory_bytes;
  machine_id = h.machine_id;
  ip_addresses = or_zero [] h.ip_addresses;
  labels = or_zero [] h.labels;
  first_seen_at = h.first_seen_at;
  last_heartbeat_at = or_zero 0 h.last_heartbeat_at;
  status = h.status;
  agent_version = or_zero "" h.agent_version;
  org_id = h.org_id;
}

abbrev host_list : Result Hosts → Reply (List HostResponse)
host_list (ok hs) = success 200 (map to_host_response hs)
host_list (err e) = failure internal

unfoldable pub handle_list_hosts :
    (String → String → Bool) → Conn → String → Hosts → Reply (List HostResponse)
handle_list_hosts collation c org_id hosts = host_list (Hosts.list collation c org_id hosts)

abbrev found : Result Host → Reply HostResponse
found (ok h) = success 200 (to_host_response h)
found (err no_rows) = failure not_found
found (err _) = failure internal

unfoldable pub handle_get_host : Conn → String → Hosts → Reply HostResponse
handle_get_host c id hosts = found (Hosts.get_by_id c id hosts)

-- An event without received_at. The column data holds JSON, so the default for a nil slice is not
-- taken.
pub record SecurityEventResponse : Type 0 where
  pub id : ℕ
  pub host_id : String
  pub occurred_at : ℕ
  pub type : String
  pub source : String
  pub content : Option (List (String × String))
  pub raw : String

abbrev pub to_security_event_response : SecurityEvent → SecurityEventResponse
to_security_event_response ev = record {
  id = ev.id;
  host_id = ev.host_id;
  occurred_at = ev.occurred_at;
  type = ev.type;
  source = ev.source;
  content = ev.content;
  raw = ev.raw;
}

abbrev event_list : Result (List SecurityEvent) → Reply (List SecurityEventResponse)
event_list (ok es) = success 200 (map to_security_event_response es)
event_list (err e) = failure internal

abbrev pub day : ℕ
day = 24 * 3_600 * 1_000_000_000

-- The `since` of the query: no text, or what time.Parse makes of it.
pub data Since : Type 0 where
  absent : Since
  parsed : Option ℕ → Since

abbrev pub since_of : ℕ → Since → Option ℕ
since_of now absent = some (now - day)
since_of now (parsed t) = t

abbrev query : Conn → String → ℕ → ℕ → SecurityEvents → Result (List SecurityEvent)
query c host_id since limit t =
    if host_id == ""
    then SecurityEvents.list_all c since limit t
    else SecurityEvents.list c host_id since limit t

abbrev with_limit :
    Conn → String → ℕ → Option ℕ → SecurityEvents → Reply (List SecurityEventResponse)
with_limit c host_id since none t = failure bad_limit
with_limit c host_id since (some limit) t = event_list (query c host_id since limit t)

abbrev with_since :
    Conn → String → Option ℕ → Bytes → SecurityEvents → Reply (List SecurityEventResponse)
with_since c host_id none limit t = failure bad_since
with_since c host_id (some since) limit t = with_limit c host_id since (limit_of 100 1_000 limit) t

unfoldable pub handle_list_security_events :
    Conn → String → ℕ → Since → Bytes → SecurityEvents → Reply (List SecurityEventResponse)
handle_list_security_events c host_id now since limit t =
    with_since c host_id (since_of now since) limit t
