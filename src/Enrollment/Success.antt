-- ===== src/Enrollment/Success.antt =====
-- What stands behind a successful Enroll: each of its steps worked.
use praetor_server.Prelude.{String, ◌≡◌, refl, Option, none, some, arith}
use praetor_server.Result.{Result, ok, err}
use praetor_server.Store.Hosts.{Host, Hosts, upsert}
use praetor_server.Store.Identities
use praetor_server.Store.Identities.{AgentIdentity, Identities}
use praetor_server.Peer.{Peer}
use praetor_server.Enrollment.{
  World, EnrollRequest, EnrollResponse, HostInfo, Granted, Tables, Outcome, done, failed, shape,
  authenticate, chosen_id, host_row, identity_row, response, link_token, known, certified, granted,
  shaped, enroll, re_enroll, upserted, finished,
}

-- The results of the steps, with what they were called on.
pub record Success (w : World) (again : Option String) (req : EnrollRequest) (t : Tables)
    (resp : EnrollResponse) (t' : Tables) : Type 0 where
  pub info : HostInfo
  pub info_ok : shape again req ≡ done info
  pub grant : Granted
  pub authed : Tables
  pub auth_ok : authenticate w again req t ≡ (done grant, authed)
  pub id : String
  pub id_ok : id ≡ chosen_id w again info grant authed.hosts
  pub cert : String
  pub cert_ok : w.issue_client req.csr_pem id ≡ some cert
  pub hosts : Hosts
  pub hosts_ok :
      upsert w.upsert_conn (host_row w req info id grant.org_id) authed.hosts ≡ (ok tt, hosts)
  pub identity : AgentIdentity
  pub identities : Identities
  pub identity_ok :
      Identities.insert w.insert_conn (known hosts) (identity_row w id cert) authed.identities
      ≡ (ok identity, identities)
  pub answer : resp ≡ response w id cert
  pub after : t' ≡ record {
    tokens = link_token w again grant.token_id id hosts authed.tokens;
    hosts = hosts;
    identities = identities;
  }

module _ (w : World) (again : Option String) (req : EnrollRequest) (t t' : Tables)
    (resp : EnrollResponse) where
  module _ (hi : HostInfo) (info_ok : shape again req ≡ done hi) (g : Granted) (t1 : Tables)
      (auth_ok : authenticate w again req t ≡ (done g, t1)) where
    abbrev id : String
    id = chosen_id w again hi g t1.hosts

    abbrev row : Host
    row = host_row w req hi id g.org_id

    recorded :
        (cert : String)
        → w.issue_client req.csr_pem id ≡ some cert
        → (hosts : Hosts) → upsert w.upsert_conn row t1.hosts ≡ (ok tt, hosts)
        → (i : Result AgentIdentity × Identities)
        → Identities.insert w.insert_conn (known hosts) (identity_row w id cert) t1.identities ≡ i
        → finished w id cert
            (record t1 { hosts = hosts; tokens = link_token w again g.token_id id hosts t1.tokens })
            i
          ≡ (done resp, t')
        → Success w again req t resp t'
    recorded cert ec hosts eo (err e, is) ei h = absurd (ground (arith, h))
    recorded cert ec hosts eo (ok i, is) ei h = record {
      info = hi;
      info_ok = info_ok;
      grant = g;
      authed = t1;
      auth_ok = auth_ok;
      id = id;
      id_ok = refl;
      cert = cert;
      cert_ok = ec;
      hosts = hosts;
      hosts_ok = eo;
      identity = i;
      identities = is;
      identity_ok = ei;
      answer = ground (arith, h);
      after = ground (arith, h);
    }

    upserted-done :
        (cert : String)
        → w.issue_client req.csr_pem id ≡ some cert
        → (o : Result (Unit {0}) × Hosts) → upsert w.upsert_conn row t1.hosts ≡ o
        → upserted w again g id cert t1 o ≡ (done resp, t')
        → Success w again req t resp t'
    upserted-done cert ec (err e, hosts) eo h = absurd (ground (arith, h))
    upserted-done cert ec (ok u, hosts) eo h =
        recorded cert ec hosts eo
          (Identities.insert w.insert_conn (known hosts) (identity_row w id cert) t1.identities)
          refl h

    certified-done :
        (c : Option String)
        → w.issue_client req.csr_pem id ≡ c
        → certified w again req hi g id c t1 ≡ (done resp, t')
        → Success w again req t resp t'
    unfolding certified
    certified-done none ec h = absurd (ground (arith, h))
    certified-done (some cert) ec h =
        upserted-done cert ec (upsert w.upsert_conn row t1.hosts) refl h

  granted-done :
      (hi : HostInfo)
      → shape again req ≡ done hi
      → (o : Outcome Granted × Tables) → authenticate w again req t ≡ o
      → granted w again req hi o ≡ (done resp, t')
      → Success w again req t resp t'
  unfolding granted
  granted-done hi e (failed x, t1) a h = absurd (ground (arith, h))
  granted-done hi e (done g, t1) a h =
      certified-done hi e g t1 a (w.issue_client req.csr_pem (id hi e g t1 a)) refl h

  shaped-done :
      (o : Outcome HostInfo)
      → shape again req ≡ o
      → shaped w again req o t ≡ (done resp, t')
      → Success w again req t resp t'
  unfolding shaped
  shaped-done (failed x) e h = absurd (ground (arith, h))
  shaped-done (done hi) e h = granted-done hi e (authenticate w again req t) refl h

pub enroll-Success :
    (w : World) (peer : Peer) (req : EnrollRequest) (t t' : Tables) (resp : EnrollResponse)
    → enroll w peer req t ≡ (done resp, t')
    → Success w (re_enroll w.clock peer) req t resp t'
unfolding enroll
enroll-Success w peer req t t' resp h =
    let again = re_enroll w.clock peer in shaped-done w again req t t' resp (shape again req) refl h
