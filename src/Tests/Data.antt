-- ===== src/Tests/Data.antt =====
-- The rows and requests that the runs share.
use praetor_server.Prelude.{ℕ, pos, String, Bool, true, none, some, string_eq}
use praetor_server.Result.{Conn}
use praetor_server.Store.Tokens.{EnrollmentToken}
use praetor_server.Store.Hosts.{Host}

abbrev pub up_at : ℕ → Conn
up_at t = record { up = true; now = t }

abbrev pub a_token : EnrollmentToken
a_token = record {
  id = "t1";
  token_hash = "PRAETOR-00000-11111-22222-33333-44444";
  label = some "rack";
  org_id = "acme";
  created_by = none;
  created_at = 1;
  expires_at = 900;
  used_at = none;
  used_by_host_id = none;
  revoked_at = none;
}

abbrev pub a_host : Host
a_host = record {
  id = "h1";
  hostname = "web";
  os = "linux";
  os_version = none;
  kernel = none;
  arch = "amd64";
  cpu_cores = some (pos 4);
  memory_bytes = some (pos 8_000);
  machine_id = some "m1";
  ip_addresses = none;
  labels = none;
  first_seen_at = 1;
  last_heartbeat_at = some 5;
  status = "online";
  agent_version = none;
  org_id = "acme";
}

abbrev pub any_host : String → Bool
any_host id = true
