-- ===== src/Enrollment/Callers.antt =====
-- internal/enrollment/service.go: who calls Enroll, by certificate or by token, and the checks of the
-- request's shape.
use praetor_server.Enrollment.Messages.{
  HostInfo, EnrollRequest, World, Tables, Outcome, failed, done, hostname_required, token_required,
  unknown_host, token_rejected, malformed_token, csr_required,
}
use praetor_server.Prelude.{
  ℕ, String, false, Option, none, some, ltb, if◌then◌else◌, ◌==◌, string_eq, is_none, codes,
}
use praetor_server.Result.{Result, ok, err, Conn}
use praetor_server.Sql.{select, first}
use praetor_server.Peer.{Peer, Certificate, leaf}
use praetor_server.Token.{parse_and_validate}
use praetor_server.Store.Tokens.{EnrollmentToken, claim}
use praetor_server.Store.Hosts
use praetor_server.Store.Hosts.{Host, Hosts}

abbrev pub valid_until : ℕ → Option Certificate → Option String
valid_until now none = none
valid_until now (some cert) = if ltb now cert.not_after then some cert.common_name else none

-- existingHostID, if isReEnroll
unfoldable pub re_enroll : ℕ → Peer → Option String
re_enroll now peer = valid_until now (leaf peer)

unfoldable pub named_host : Option HostInfo → Outcome HostInfo
named_host none = failed hostname_required
named_host (some hi) = if hi.hostname == "" then failed hostname_required else done hi

-- the checks of the request's shape
unfoldable pub shape : Option String → EnrollRequest → Outcome HostInfo
unfolding named_host
shape again req =
    if (if is_none again then req.enrollment_token == "" else false)
    then failed token_required
    else if req.csr_pem == ""
    then failed csr_required
    else named_host req.host_info

-- tokenID and tokenOrgID
pub record Granted : Type 0 where
  pub token_id : String
  pub org_id : String

abbrev pub org_row : Option Host → Outcome Granted
org_row none = failed unknown_host
org_row (some h) = done (record { token_id = ""; org_id = h.org_id })

-- SELECT org_id FROM hosts WHERE id = $1; every error of it is the same to the caller.
unfoldable pub org_of_host : Conn → String → Hosts → Outcome Granted
org_of_host c id hosts =
    if c.up then org_row (first (select (Hosts.has_id id) hosts)) else failed unknown_host

abbrev pub claimed : Result EnrollmentToken → Outcome Granted
claimed (ok r) = done (record { token_id = r.id; org_id = r.org_id })
claimed (err e) = failed token_rejected

-- A malformed token is refused before the database is asked. The characters of a text that is not
-- ASCII stand for its bytes here: neither are in the alphabet.
unfoldable pub authenticate :
    World → Option String → EnrollRequest → Tables → Outcome Granted × Tables
authenticate w (some host_id) req t = (org_of_host w.org_conn host_id t.hosts, t)
authenticate w none req t =
    if is_none (parse_and_validate (codes req.enrollment_token))
    then (let o = claim w.claim_conn (w.sha256_hex req.enrollment_token) t.tokens in
        (claimed o.0, record t { tokens = o.1 }))
    else (failed malformed_token, t)
