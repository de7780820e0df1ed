-- ===== src/Tests/Enrollments.antt =====
-- Runs of Enroll: a first enrollment by a token, a renewal by a certificate, and a refused request.
use praetor_server.Prelude.{◌+◌, pos, ◌≡◌, ◌≢◌, refl, none, some, [], ◌∷◌, arith, In, eq_iff}
use praetor_server.Result.{ok}
use praetor_server.Sql.{exists_where, select, update_where}
use praetor_server.Peer.{Peer, tls}
use praetor_server.Token.{parse_and_validate, split, contains, has_prefix}
use praetor_server.Store.Tokens.{claim, link_host}
use praetor_server.Store.Hosts.{Host, upsert, get_by_id, get_by_machine_id}
use praetor_server.Store.Identities
use praetor_server.Store.Identities.{AgentIdentity}
use praetor_server.Enrollment.{
  World, EnrollRequest, EnrollResponse, HostInfo, Tables, done, failed, csr_required, internal,
  enroll, re_enroll, shape, shaped, authenticate, granted, certified, resolve_host_id, link_token,
  org_of_host, cert_fingerprint, client_cert_ttl,
}
use praetor_server.Enrollment.Authentic.{Entitled, enroll_authentic}
use praetor_server.Enrollment.Once.{Call, enroll_all, enroll_once}
use praetor_server.Enrollment.Issued.{enroll_identity, re_enroll_same, machine_keeps_id}
use praetor_server.Enrollment.Failed.{enroll_failed}
use praetor_server.Tests.Data.{up_at, a_token, a_host}

abbrev pub world : World
world = record {
  clock = 10;
  clock_later = 11;
  claim_conn = up_at 10;
  org_conn = up_at 10;
  find_conn = up_at 10;
  upsert_conn = up_at 11;
  link_conn = up_at 11;
  insert_conn = up_at 12;
  ulid = "h9";
  sha256_hex = λ s. s;
  pem_decode = λ s. some s;
  parse_certificate = λ s. some s;
  issue_client = λ csr id. some id;
  root_bundle = "root";
}

abbrev pub info : HostInfo
info = record {
  hostname = "web";
  os = "linux";
  os_version = "";
  kernel = "";
  arch = "amd64";
  cpu_cores = pos 4;
  memory_bytes = pos 8_000;
  machine_id = "m1";
  ip_addresses = none;
  labels = none;
}

abbrev pub request : EnrollRequest
request = record {
  enrollment_token = "PRAETOR-00000-11111-22222-33333-44444";
  csr_pem = "csr";
  agent_version = "1.0";
  host_info = some info;
}

abbrev pub tables : Tables
tables = record {
  tokens = a_token ∷ [];
  hosts = a_host ∷ [];
  identities = record { rows = []; next_id = 1 };
}

abbrev pub answer : EnrollResponse
answer = record {
  cert_pem = "h1";
  ca_bundle_pem = "root";
  agent_id = "h1";
  cert_renewal_interval_seconds = 72_000;
}

abbrev enrolled : Tables
enrolled = (enroll world none request tables).1

first_time : re_enroll 10 none ≡ none
unfolding re_enroll
first_time = refl

enrolled_ok : enroll world none request tables ≡ (done answer, enrolled)
unfolding enroll re_enroll shape shaped authenticate granted certified resolve_host_id
    parse_and_validate split contains has_prefix claim select update_where upsert exists_where
    Identities.insert link_token link_host
enrolled_ok = refl

enroll_authentic_example :
    (hi : HostInfo) × (h : Host) × (request.host_info ≡ some hi)
    × (get_by_id (up_at 20) "h1" enrolled.hosts ≡ ok h)
    × (h.status ≡ "enrolled")
    × (h.hostname ≡ hi.hostname)
    × Entitled world none request tables h.org_id
enroll_authentic_example =
    enroll_authentic world none request tables (up_at 20) enrolled answer enrolled_ok refl

-- The same token an hour later, from another machine, after the first host has renewed.
abbrev again : Call
again = (world, some (tls ((record { common_name = "h1"; not_after = 900 } ∷ []) ∷ [])), request)

abbrev after : Tables
after = enroll_all (again ∷ []) enrolled

enroll_once_example : enroll world none request after ≢ (done answer, enrolled)
enroll_once_example =
    enroll_once world world none none request request tables enrolled enrolled answer answer
      (again ∷ []) first_time enrolled_ok first_time (omega arith) refl

enroll_identity_example :
    (world.issue_client "csr" "h1" ≡ some "h1")
    × (r : AgentIdentity) × In r enrolled.identities.rows
    × (r.host_id ≡ "h1")
    × (r.cert_pem ≡ "h1")
    × (r.cert_fingerprint ≡ cert_fingerprint world "h1")
    × (r.revoked_at ≡ none)
    × (r.expires_at ≡ 11 + client_cert_ttl)
enroll_identity_example = enroll_identity world none request tables enrolled answer enrolled_ok

known : get_by_machine_id (up_at 20) "m1" "acme" tables.hosts ≡ ok a_host
unfolding get_by_machine_id select
known = refl

abbrev enrolled_host : Host
enrolled_host = record a_host {
  last_heartbeat_at = some 11;
  status = "enrolled";
  agent_version = some "1.0";
}

now_known : get_by_id (up_at 20) "h1" enrolled.hosts ≡ ok enrolled_host
unfolding enroll re_enroll shape shaped authenticate granted certified resolve_host_id
    parse_and_validate split contains has_prefix claim select update_where upsert exists_where
    Identities.insert link_token link_host get_by_id
now_known = refl

named : info.machine_id ≢ ""
named e = ground (arith, e, eq_iff "m1" "")

machine_keeps_id_example : answer.agent_id ≡ a_host.id
machine_keeps_id_example =
    machine_keeps_id world none request tables enrolled answer enrolled_ok (up_at 20) info a_host
      enrolled_host first_time refl named refl refl now_known known

-- a renewal by the certificate of the host
abbrev peer : Peer
peer = some (tls ((record { common_name = "h1"; not_after = 900 } ∷ []) ∷ []))

abbrev renewed : Tables
renewed = (enroll world peer request tables).1

renewed_ok : enroll world peer request tables ≡ (done answer, renewed)
unfolding enroll re_enroll shape shaped authenticate granted certified resolve_host_id org_of_host
    select update_where upsert exists_where Identities.insert link_token
renewed_ok = refl

renews : re_enroll 10 peer ≡ some "h1"
unfolding re_enroll
renews = refl

host_named : a_host.id ≢ ""
host_named e = ground (arith, e, eq_iff "h1" "")

re_enroll_same_example : (answer.agent_id ≡ "h1") × (renewed.tokens ≡ tables.tokens)
re_enroll_same_example =
    re_enroll_same world peer request tables renewed answer renewed_ok "h1" renews host_named

abbrev without_csr : EnrollRequest
without_csr = record request { csr_pem = "" }

refused_ok : enroll world none without_csr tables ≡ (failed csr_required, tables)
unfolding enroll re_enroll shape shaped
refused_ok = refl

enroll_failed_example :
    (tables.identities.rows ≡ tables.identities.rows)
    × (csr_required ≢ internal → tables.hosts ≡ tables.hosts)
enroll_failed_example = enroll_failed world none without_csr tables tables csr_required refused_ok
