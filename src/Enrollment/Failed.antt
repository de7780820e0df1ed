-- ===== src/Enrollment/Failed.antt =====
-- What a failed Enroll leaves behind.
use praetor_server.Prelude.{
  String, ◌≡◌, ◌≢◌, refl, ◌∙◌, Bool, Option, none, some, arith, Option-cases, Bool-cases, codes,
  inr, inl,
}
use praetor_server.Result.{ok, err, Error, Conn, Result}
use praetor_server.Sql.{exists_where}
use praetor_server.Peer.{Peer}
use praetor_server.Token.{parse_and_validate}
use praetor_server.Store.Hosts.{Hosts, upsert}
use praetor_server.Store.Identities
use praetor_server.Store.Identities.{valid_fingerprint, AgentIdentity, Identities}
use praetor_server.Enrollment.{
  World, EnrollRequest, HostInfo, Granted, Tables, Outcome, EnrollError, internal, done, failed,
  authenticate, re_enroll, enroll, shape, shaped, granted, certified, upserted, finished,
  link_token, known, identity_row, host_row, chosen_id,
}

insert-err :
    (c : Conn) (hosts : String → Bool) (ai : AgentIdentity) (t : Identities) (e : Error)
    (t' : Identities)
    → Identities.insert c hosts ai t ≡ (err e, t')
    → t'.rows ≡ t.rows
unfolding Identities.insert
insert-err c hosts ai t e t' h = elim (Bool-cases c.up) [
  | inr n ↦ ground (arith, n, h)
  | inl y ↦ elim (Bool-cases (exists_where (valid_fingerprint ai.cert_fingerprint) t.rows)) [
    | inl d ↦ ground (arith, y, d, h)
    | inr n ↦ ground (arith, y, n, h)
  ]
]

-- What a failure may change: no identity, and no host unless the error is an internal one.
record IsKept (t : Tables) (e : EnrollError) (t' : Tables) : Type 0 where
  identities : t'.identities.rows ≡ t.identities.rows
  hosts : e ≢ internal → t'.hosts ≡ t.hosts

module _ (w : World) (req : EnrollRequest) (t : Tables) where
  authenticated :
      (again : Option String)
      → ((authenticate w again req t).1.hosts ≡ t.hosts)
        × ((authenticate w again req t).1.identities ≡ t.identities)
  unfolding authenticate
  authenticated (some x) = (refl, refl)
  authenticated none = elim (Option-cases (parse_and_validate (codes req.enrollment_token))) [
    | inr (x, y) ↦ (ground (arith, y), ground (arith, y))
    | inl n ↦ (ground (arith, n), ground (arith, n))
  ]

module _ (w : World) (again : Option String) (req : EnrollRequest) (e : EnrollError)
    (t' : Tables) where
  finished-IsKept :
      (id cert : String) (t u : Tables) (o : Result AgentIdentity × Identities)
      → Identities.insert w.insert_conn (known u.hosts) (identity_row w id cert) u.identities ≡ o
      → u.identities.rows ≡ t.identities.rows
      → finished w id cert u o ≡ (failed e, t')
      → IsKept t e t'
  finished-IsKept id cert t u (ok i, is) eo s h = absurd (ground (arith, h))
  finished-IsKept id cert t u (err x, is) eo s h = record {
    identities = ground (
      arith,
      h,
      insert-err w.insert_conn (known u.hosts) (identity_row w id cert) u.identities x is eo,
      s,
    );
    hosts = λ ne. absurd (ground (arith, h, ne));
  }

  upserted-IsKept :
      (g : Granted) (id cert : String) (t : Tables) (o : Result (Unit {0}) × Hosts)
      → upserted w again g id cert t o ≡ (failed e, t')
      → IsKept t e t'
  upserted-IsKept g id cert t (err x, hosts) h = record {
    identities = ground (arith, h);
    hosts = λ ne. absurd (ground (arith, h, ne));
  }
  upserted-IsKept g id cert t (ok u, hosts) h =
      let t1 = record t {
        hosts = hosts;
        tokens = link_token w again g.token_id id hosts t.tokens;
      } in
      finished-IsKept id cert t t1
        (Identities.insert w.insert_conn (known hosts) (identity_row w id cert) t.identities) refl
        refl h

  certified-IsKept :
      (hi : HostInfo) (g : Granted) (id : String) (o : Option String) (t : Tables)
      → certified w again req hi g id o t ≡ (failed e, t')
      → IsKept t e t'
  unfolding certified
  certified-IsKept hi g id none t h = record {
    identities = ground (arith, h);
    hosts = λ ne. ground (arith, h);
  }
  certified-IsKept hi g id (some cert) t h =
      upserted-IsKept g id cert t (upsert w.upsert_conn (host_row w req hi id g.org_id) t.hosts) h

  granted-IsKept :
      (hi : HostInfo) (t : Tables) (o : Outcome Granted × Tables)
      → o.1.hosts ≡ t.hosts
      → o.1.identities ≡ t.identities
      → granted w again req hi o ≡ (failed e, t')
      → IsKept t e t'
  unfolding granted
  granted-IsKept hi t (failed x, u) hs is h = record {
    identities = ground (arith, h, is);
    hosts = λ ne. ground (arith, h, hs);
  }
  granted-IsKept hi t (done g, u) hs is h =
      let id = chosen_id w again hi g u.hosts in
      let k = certified-IsKept hi g id (w.issue_client req.csr_pem id) u h in
      record { identities = ground (arith, k.identities, is); hosts = λ ne. k.hosts ne ∙ hs }

  shaped-IsKept :
      (o : Outcome HostInfo) (t : Tables) → shaped w again req o t ≡ (failed e, t') → IsKept t e t'
  unfolding shaped
  shaped-IsKept (failed x) t h = record {
    identities = ground (arith, h);
    hosts = λ ne. ground (arith, h);
  }
  shaped-IsKept (done hi) t h =
      granted-IsKept hi t (authenticate w again req t) (authenticated w req t again).0
        (authenticated w req t again).1 h

-- A failed Enroll adds no identity, and it writes no host either unless the error is an internal
-- one.
pub enroll_failed :
    (w : World) (peer : Peer) (req : EnrollRequest) (t t' : Tables) (e : EnrollError)
    → enroll w peer req t ≡ (failed e, t')
    → (t'.identities.rows ≡ t.identities.rows) × (e ≢ internal → t'.hosts ≡ t.hosts)
unfolding enroll
enroll_failed w peer req t t' e h =
    let again = re_enroll w.clock peer in
    let k = shaped-IsKept w again req e t' (shape again req) t h in (k.identities, k.hosts)
