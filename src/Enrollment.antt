-- ===== src/Enrollment.antt =====
-- internal/enrollment/service.go: the Enroll call, statement by statement. The generated messages,
-- the CA and the standard library's hash, PEM and X.509 functions are fields of the world.
pub mod Success
pub mod Authentic
pub mod Spent
pub mod Once
pub mod Issued
pub mod Failed
pub mod Certified
mod Messages
pub use Messages.*
mod Callers
unfoldable pub use Callers.*
use praetor_server.Prelude.{
  or_empty, ℕ, ◌+◌, ◌*◌, ℤ, String, Bool, false, Option, none, some, List, ltb, if◌then◌else◌, ◌==◌,
  string_eq, is_none, codes, length, take, ◌++◌,
}
use praetor_server.Result.{Result, ok, err, Conn}
use praetor_server.Sql.{select, first, exists_where}
use praetor_server.Peer.{Peer, Certificate, leaf}
use praetor_server.Token.{parse_and_validate}
use praetor_server.Store.Tokens
use praetor_server.Store.Tokens.{EnrollmentToken, Tokens, claim, link_host}
use praetor_server.Store.Hosts
use praetor_server.Store.Hosts.{Host, Hosts, upsert}
use praetor_server.Store.Identities
use praetor_server.Store.Identities.{AgentIdentity, Identities}

abbrev existing : String → Option Host → String
existing fresh none = fresh
existing fresh (some h) = h.id

-- resolveHostID: an error of the SELECT, too, makes a new id.
unfoldable pub resolve_host_id : Conn → String → String → String → String → Hosts → String
resolve_host_id c fresh machine_id org_id re_enroll_host_id hosts =
    if re_enroll_host_id == ""
    then (if machine_id == ""
        then fresh
        else if c.up
        then existing fresh (first (select (Hosts.has_machine machine_id org_id) hosts))
        else fresh)
    else re_enroll_host_id

-- nil for the empty text
abbrev pub non_empty : String → Option String
non_empty s = if s == "" then none else some s

-- the row that Enroll upserts
abbrev pub host_row : World → EnrollRequest → HostInfo → String → String → Host
host_row w req hi host_id org_id = record {
  id = host_id;
  hostname = hi.hostname;
  os = hi.os;
  os_version = non_empty hi.os_version;
  kernel = non_empty hi.kernel;
  arch = hi.arch;
  cpu_cores = some hi.cpu_cores;
  memory_bytes = some hi.memory_bytes;
  machine_id = non_empty hi.machine_id;
  ip_addresses = hi.ip_addresses;
  labels = hi.labels;
  first_seen_at = w.clock_later;
  last_heartbeat_at = some w.clock_later;
  status = "enrolled";
  agent_version = non_empty req.agent_version;
  org_id = org_id;
}

abbrev parsed_fingerprint : World → Option String → String
parsed_fingerprint w none = "invalid-cert"
parsed_fingerprint w (some raw) = w.sha256_hex raw

abbrev block_fingerprint : World → Option String → String
block_fingerprint w none = "invalid-pem"
block_fingerprint w (some block) = parsed_fingerprint w (w.parse_certificate block)

-- certFingerprint
unfoldable pub cert_fingerprint : World → String → String
cert_fingerprint w cert_pem = block_fingerprint w (w.pem_decode cert_pem)

-- the identity that Enroll inserts
abbrev pub identity_row : World → String → String → AgentIdentity
identity_row w host_id cert_pem = record {
  id = 0;
  host_id = host_id;
  cert_pem = cert_pem;
  cert_fingerprint = cert_fingerprint w cert_pem;
  issued_at = w.clock_later;
  expires_at = w.clock_later + client_cert_ttl;
  revoked_at = none;
  revoked_reason = none;
}

abbrev pub response : World → String → String → EnrollResponse
response w host_id cert_pem = record {
  cert_pem = cert_pem;
  ca_bundle_pem = w.root_bundle;
  agent_id = host_id;
  cert_renewal_interval_seconds = 20 * 3_600;
}

abbrev pub finished :
    World
    → String
    → String
    → Tables
    → Result AgentIdentity × Identities
    → Outcome EnrollResponse × Tables
finished w host_id cert_pem t (ok i, is) =
    (done (response w host_id cert_pem), record t { identities = is })
finished w host_id cert_pem t (err e, is) = (failed internal, record t { identities = is })

abbrev pub known : Hosts → String → Bool
known hosts id = exists_where (Hosts.has_id id) hosts

-- 8. record the issued identity
abbrev pub record_identity : World → String → String → Tables → Outcome EnrollResponse × Tables
record_identity w host_id cert_pem t =
    finished w host_id cert_pem t (
      Identities.insert w.insert_conn (known t.hosts) (identity_row w host_id cert_pem)
        t.identities)

-- 7. link the token, if it was a first enrollment; an error is not fatal
unfoldable pub link_token : World → Option String → String → String → Hosts → Tokens → Tokens
link_token w (some again) token_id host_id hosts tokens = tokens
link_token w none token_id host_id hosts tokens =
    if token_id == ""
    then tokens
    else (link_host w.link_conn (known hosts) token_id host_id tokens).1

abbrev pub upserted :
    World
    → Option String
    → Granted
    → String
    → String
    → Tables
    → Result (Unit {0}) × Hosts
    → Outcome EnrollResponse × Tables
upserted w again g host_id cert_pem t (err e, hosts) = (failed internal, record t { hosts = hosts })
upserted w again g host_id cert_pem t (ok u, hosts) =
    record_identity w host_id cert_pem
      (record t { hosts = hosts; tokens = link_token w again g.token_id host_id hosts t.tokens })

-- 6. upsert the host row, once the certificate is there
unfoldable pub certified :
    World
    → Option String
    → EnrollRequest
    → HostInfo
    → Granted
    → String
    → Option String
    → Tables
    → Outcome EnrollResponse × Tables
certified w again req hi g host_id none t = (failed csr_rejected, t)
certified w again req hi g host_id (some cert_pem) t =
    upserted w again g host_id cert_pem t
      (upsert w.upsert_conn (host_row w req hi host_id g.org_id) t.hosts)

-- the host id that steps 4 to 8 are about
abbrev pub chosen_id : World → Option String → HostInfo → Granted → Hosts → String
chosen_id w again hi g hosts =
    resolve_host_id w.find_conn w.ulid hi.machine_id g.org_id (or_empty again) hosts

-- 4. and 5. determine the host id and issue its certificate
unfoldable pub granted :
    World
    → Option String
    → EnrollRequest
    → HostInfo
    → Outcome Granted × Tables
    → Outcome EnrollResponse × Tables
granted w again req hi (failed e, t) = (failed e, t)
granted w again req hi (done g, t) =
    let host_id = chosen_id w again hi g t.hosts in
    certified w again req hi g host_id (w.issue_client req.csr_pem host_id) t

unfoldable pub shaped :
    World
    → Option String
    → EnrollRequest
    → Outcome HostInfo
    → Tables
    → Outcome EnrollResponse × Tables
shaped w again req (failed e) t = (failed e, t)
shaped w again req (done hi) t = granted w again req hi (authenticate w again req t)

unfoldable pub enroll : World → Peer → EnrollRequest → Tables → Outcome EnrollResponse × Tables
enroll w peer req t = let again = re_enroll w.clock peer in shaped w again req (shape again req) t

-- safePrefix, for the log
unfoldable pub safe_prefix : List ℕ → List ℕ
safe_prefix tok = if ltb (length tok) 12 then codes "***" else take 12 tok ++ codes "..."
