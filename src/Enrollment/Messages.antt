-- ===== src/Enrollment/Messages.antt =====
-- internal/enrollment/service.go: the messages of Enroll, its errors, and what it reads and writes.
use praetor_server.Prelude.{ℕ, ◌*◌, ℤ, String, Option, List}
use praetor_server.Result.{Conn}
use praetor_server.Store.Tokens.{Tokens}
use praetor_server.Store.Hosts.{Hosts}
use praetor_server.Store.Identities.{Identities}

-- The fields of the message; cpu_cores is what the conversion to int32 yields.
pub record HostInfo : Type 0 where
  pub hostname : String
  pub os : String
  pub os_version : String
  pub kernel : String
  pub arch : String
  pub cpu_cores : ℤ
  pub memory_bytes : ℤ
  pub machine_id : String
  pub ip_addresses : Option (List String)
  pub labels : Option (List (String × String))

pub record EnrollRequest : Type 0 where
  pub enrollment_token : String
  pub csr_pem : String
  pub agent_version : String
  pub host_info : Option HostInfo

pub record EnrollResponse : Type 0 where
  pub cert_pem : String
  pub ca_bundle_pem : String
  pub agent_id : String
  pub cert_renewal_interval_seconds : ℕ

-- The status errors of Enroll, in the order in which it can return them.
pub data EnrollError : Type 0 where
  token_required csr_required hostname_required unknown_host malformed_token : EnrollError
  token_rejected csr_rejected internal : EnrollError

pub data Outcome (A : Type 0) : Type 0 where
  done : A → Outcome A
  failed : EnrollError → Outcome A

-- the tables that Enroll reads and writes
pub record Tables : Type 0 where
  pub tokens : Tokens
  pub hosts : Hosts
  pub identities : Identities

-- The two readings of the clock, one round trip for each statement, the ULID that would be made,
-- and the functions that are not the repository's. `issue_client` is CA.IssueClient on the CSR and
-- the host id; it fails with `none`.
pub record World : Type 0 where
  pub clock : ℕ
  pub clock_later : ℕ
  pub claim_conn : Conn
  pub org_conn : Conn
  pub find_conn : Conn
  pub upsert_conn : Conn
  pub link_conn : Conn
  pub insert_conn : Conn
  pub ulid : String
  pub sha256_hex : String → String
  pub pem_decode : String → Option String
  pub parse_certificate : String → Option String
  pub issue_client : String → String → Option String
  pub root_bundle : String

-- clientCertTTL, in nanoseconds
abbrev pub client_cert_ttl : ℕ
client_cert_ttl = 24 * 3_600_000_000_000
