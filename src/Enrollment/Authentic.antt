-- ===== src/Enrollment/Authentic.antt =====
-- Who can enroll, and as what the host is registered.
use praetor_server.Prelude.{
  ◌<◌, String, ◌≡◌, refl, true, Option, none, some, arith, Option-cases, In, codes, eq_iff,
  string_eq, inl, inr,
}
use praetor_server.Result.{Result, ok, err, Conn}
use praetor_server.Sql.{select, first, first-select-In}
use praetor_server.Peer.{Peer, Certificate, leaf}
use praetor_server.Token.{parse_and_validate}
use praetor_server.Store.Tokens.{EnrollmentToken, claim}
use praetor_server.Store.Tokens.Lookup.{IsUsable, claim_sound}
use praetor_server.Store.Hosts.{Host, get_by_id, has_id}
use praetor_server.Store.Hosts.Rows.{get-upsert, seen}
use praetor_server.Enrollment.{
  World, EnrollRequest, EnrollResponse, HostInfo, Granted, Tables, done, authenticate, claimed,
  org_of_host, re_enroll, enroll, host_row, shape,
}
use praetor_server.Enrollment.Success.{enroll-Success}

-- What entitles a caller to a host in the organisation `org`: a well-formed token that the table
-- holds and that is good for an enrollment, or an unexpired certificate of a host of the table.
pub data Entitled (w : World) (peer : Peer) (req : EnrollRequest) (t : Tables) (org : String)
    : Type 0 where
  by_token :
      re_enroll w.clock peer ≡ none
      → parse_and_validate (codes req.enrollment_token) ≡ none
      → (r : EnrollmentToken) → In r t.tokens
      → IsUsable w.claim_conn.now (w.sha256_hex req.enrollment_token) r
      → r.org_id ≡ org
      → Entitled w peer req t org
  by_certificate :
      (cert : Certificate)
      → leaf peer ≡ some cert
      → w.clock < cert.not_after
      → (h : Host) → In h t.hosts
      → h.id ≡ cert.common_name
      → h.org_id ≡ org
      → Entitled w peer req t org

pub claimed-ok :
    (g : Granted) (o : Result EnrollmentToken)
    → claimed o ≡ done g
    → (r : EnrollmentToken) × (o ≡ ok r) × (r.org_id ≡ g.org_id)
claimed-ok g (ok r) e = (r, refl, ground (arith, e))
claimed-ok g (err x) e = absurd (ground (arith, e))

module _ (w : World) (peer : Peer) (req : EnrollRequest) (t : Tables) where
  re_enroll-cert :
      (id : String)
      → re_enroll w.clock peer ≡ some id
      → (cert : Certificate) × (leaf peer ≡ some cert)
        × (w.clock < cert.not_after)
        × (cert.common_name ≡ id)
  unfolding re_enroll
  re_enroll-cert id e = elim (Option-cases (leaf peer)) [
    | inl n ↦ absurd (ground (arith, n, e))
    | inr (cert, y) ↦ (cert, y, ground (arith, y, e), ground (arith, y, e))
  ]

  org_sound :
      (id : String) (g : Granted)
      → org_of_host w.org_conn id t.hosts ≡ done g
      → (h : Host) × In h t.hosts × (h.id ≡ id) × (h.org_id ≡ g.org_id)
  unfolding org_of_host
  org_sound id g e = elim (Option-cases (first (select (has_id id) t.hosts))) [
    | inl n ↦ absurd (ground (arith, n, e))
    | inr (h, y) ↦
        let (i, k) = first-select-In (has_id id) h t.hosts y in
        (h, i, (eq_iff h.id id).0 k, ground (arith, y, e))
  ]

  granted-Entitled :
      (again : Option String)
      → re_enroll w.clock peer ≡ again
      → (g : Granted) (t1 : Tables) → authenticate w again req t ≡ (done g, t1)
      → Entitled w peer req t g.org_id
  unfolding authenticate
  granted-Entitled (some id) e g t1 a =
      let (cert, l, fresh, name) = re_enroll-cert id e in
      let (h, i, k, org) = org_sound id g (ground (arith, a)) in
      by_certificate cert l fresh h i (ground (arith, k, name)) org
  granted-Entitled none e g t1 a =
      elim (Option-cases (parse_and_validate (codes req.enrollment_token))) [
        | inr (x, y) ↦ absurd (ground (arith, y, a))
        | inl n ↦
            let (r, c, org) =
              claimed-ok g (claim w.claim_conn (w.sha256_hex req.enrollment_token) t.tokens).0
                (ground (arith, n, a)) in
            let (i, u) =
              claim_sound w.claim_conn (w.sha256_hex req.enrollment_token) t.tokens r c in
            by_token e n r i u org
      ]

  pub host_info_ok :
      (again : Option String) (hi : HostInfo) → shape again req ≡ done hi → req.host_info ≡ some hi
  unfolding shape
  host_info_ok again hi e = elim (Option-cases req.host_info) [
    | inl n ↦ absurd (ground (arith, n, e))
    | inr (x, y) ↦ ground (arith, y, e)
  ]

  -- A successful Enroll was entitled to it, by a good token or by an unexpired certificate of a known
  -- host, and a lookup of the host id that it answers then finds the host: enrolled, with the name
  -- that was sent, and in the organisation of the token or of the host of the certificate.
  pub enroll_authentic :
      (c' : Conn) (t' : Tables) (resp : EnrollResponse)
      → enroll w peer req t ≡ (done resp, t')
      → c'.up ≡ true
      → (hi : HostInfo) × (h : Host) × (req.host_info ≡ some hi)
        × (get_by_id c' resp.agent_id t'.hosts ≡ ok h)
        × (h.status ≡ "enrolled")
        × (h.hostname ≡ hi.hostname)
        × Entitled w peer req t h.org_id
  enroll_authentic c' t' resp e up =
      let s = enroll-Success w peer req t t' resp e in
      let row = host_row w req s.info s.id s.grant.org_id in
      let got = get-upsert w.upsert_conn c' row s.authed.hosts (ground (arith, s.hosts_ok)) up in
      (
        s.info,
        record row {
          first_seen_at = seen w.upsert_conn.now (first (select (has_id s.id) s.authed.hosts));
        },
        host_info_ok (re_enroll w.clock peer) s.info s.info_ok,
        ground (arith, got, s.hosts_ok, s.answer, s.after),
        refl,
        refl,
        granted-Entitled (re_enroll w.clock peer) refl s.grant s.authed s.auth_ok,
      )
