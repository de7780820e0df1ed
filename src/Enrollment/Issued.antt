-- ===== src/Enrollment/Issued.antt =====
-- The certificate and the host id of a successful Enroll.
use praetor_server.Prelude.{
  In-last, ◌+◌, String, ◌≡◌, ◌≢◌, refl, ◌∙◌, subst, Bool, true, Option, none, some, [], ◌∷◌, ◌++◌,
  arith, Option-cases, codes, eq_iff, string_eq, In, inl, inr,
}
use praetor_server.Result.{ok, Conn}
use praetor_server.Sql.{select, first}
use praetor_server.Peer.{Peer}
use praetor_server.Store.Hosts.{Host, Hosts, has_machine, get_by_machine_id, get_by_id}
use praetor_server.Store.Identities
use praetor_server.Store.Identities.{AgentIdentity, Identities, stored, valid_fingerprint}
use praetor_server.Enrollment.{
  host_row, Outcome, identity_row, known, HostInfo, World, EnrollRequest, EnrollResponse, Granted,
  Tables, done, authenticate, re_enroll, enroll, link_token, cert_fingerprint, client_cert_ttl,
  resolve_host_id,
}
use praetor_server.Token.{parse_and_validate}
use praetor_server.Store.Hosts.Rows.{get-upsert}
use praetor_server.Enrollment.Authentic.{host_info_ok}
use praetor_server.Enrollment.Success.{Success, enroll-Success}

inserted-In :
    (c : Conn) (hosts : String → Bool) (ai i : AgentIdentity) (t t' : Identities)
    → Identities.insert c hosts ai t ≡ (ok i, t')
    → In (stored t.next_id c.now ai) t'.rows
unfolding Identities.insert
inserted-In c hosts ai i t t' e =
    let rows : t'.rows ≡ t.rows ++ stored t.next_id c.now ai ∷ [] = ground (arith, e) in
    rw rows (In-last t.rows (stored t.next_id c.now ai))

auth-hosts :
    (w : World) (again : Option String) (req : EnrollRequest) (t t1 : Tables) (o : Outcome Granted)
    → authenticate w again req t ≡ (o, t1)
    → t1.hosts ≡ t.hosts
unfolding authenticate
auth-hosts w (some x) req t t1 o e = ground (arith, e)
auth-hosts w none req t t1 o e =
    elim (Option-cases (parse_and_validate (codes req.enrollment_token))) [
      | inr (x, y) ↦ ground (arith, y, e)
      | inl n ↦ ground (arith, n, e)
    ]

-- what a lookup of the host finds
registered :
    (w : World) (again : Option String) (req : EnrollRequest) (t t' : Tables)
    (resp : EnrollResponse) (s : Success w again req t resp t') (c' : Conn) (h : Host)
    → c'.up ≡ true
    → get_by_id c' resp.agent_id t'.hosts ≡ ok h
    → h.org_id ≡ s.grant.org_id
registered w again req t t' resp s c' h up there =
    let row = host_row w req s.info s.id s.grant.org_id in
    let got = get-upsert w.upsert_conn c' row s.authed.hosts (ground (arith, s.hosts_ok)) up in
    ground (arith, there, got, s.hosts_ok, s.answer, s.after)

resolve_known :
    (c c' : Conn) (fresh m org : String) (hosts : Hosts) (h : Host)
    → c.up ≡ true
    → c'.up ≡ true
    → m ≢ ""
    → get_by_machine_id c' m org hosts ≡ ok h
    → resolve_host_id c fresh m org "" hosts ≡ h.id
unfolding resolve_host_id get_by_machine_id
resolve_known c c' fresh m org hosts h up up' ne found =
    elim (Option-cases (first (select (has_machine m org) hosts))) [
      | inl n ↦ absurd (ground (arith, n, found, up'))
      | inr (x, y) ↦ ground (arith, y, found, up', up, ne, eq_iff m "", eq_iff "" "")
    ]

module _ (w : World) (peer : Peer) (req : EnrollRequest) (t t' : Tables) (resp : EnrollResponse)
    (e : enroll w peer req t ≡ (done resp, t')) where
  -- The certificate that a successful Enroll answers was issued for the request and for the host id
  -- it answers, and is on record for that host under its fingerprint: not revoked, and expiring 24
  -- hours after the time at which the server took the enrollment.
  pub enroll_identity :
      (w.issue_client req.csr_pem resp.agent_id ≡ some resp.cert_pem)
      × (r : AgentIdentity) × In r t'.identities.rows
      × (r.host_id ≡ resp.agent_id)
      × (r.cert_pem ≡ resp.cert_pem)
      × (r.cert_fingerprint ≡ cert_fingerprint w resp.cert_pem)
      × (r.revoked_at ≡ none)
      × (r.expires_at ≡ w.clock_later + client_cert_ttl)
  enroll_identity =
      let s = enroll-Success w peer req t t' resp e in
      let row = identity_row w s.id s.cert in
      let i =
        inserted-In w.insert_conn (known s.hosts) row s.identity s.authed.identities s.identities
          s.identity_ok in
      (
        ground (arith, s.cert_ok, s.answer),
        stored s.authed.identities.next_id w.insert_conn.now row,
        subst (In (stored s.authed.identities.next_id w.insert_conn.now row))
            (ground (arith, s.after)) i,
        ground (arith, s.answer),
        ground (arith, s.answer),
        ground (arith, s.answer),
        refl,
        refl,
      )

  -- A caller with a valid certificate of a named host keeps its host id, and no token is touched.
  pub re_enroll_same :
      (id : String)
      → re_enroll w.clock peer ≡ some id
      → id ≢ ""
      → (resp.agent_id ≡ id) × (t'.tokens ≡ t.tokens)
  unfolding authenticate link_token resolve_host_id
  re_enroll_same id again ne =
      let s = enroll-Success w peer req t t' resp e in
      (
        ground (arith, s.answer, s.id_ok, again, ne, eq_iff id ""),
        ground (arith, s.after, s.auth_ok, again),
      )

  -- A machine that enrolls by a token again, in the organisation that it is already in, gets the id
  -- it has.
  pub machine_keeps_id :
      (c' : Conn) (hi : HostInfo) (h h' : Host)
      → re_enroll w.clock peer ≡ none
      → req.host_info ≡ some hi
      → hi.machine_id ≢ ""
      → w.find_conn.up ≡ true
      → c'.up ≡ true
      → get_by_id c' resp.agent_id t'.hosts ≡ ok h'
      → get_by_machine_id c' hi.machine_id h'.org_id t.hosts ≡ ok h
      → resp.agent_id ≡ h.id
  unfolding authenticate get_by_machine_id resolve_host_id
  machine_keeps_id c' hi h h' first_time info ne up up' there found =
      let s = enroll-Success w peer req t t' resp e in
      let org = registered w (re_enroll w.clock peer) req t t' resp s c' h' up' there in
      let same = auth-hosts w (re_enroll w.clock peer) req t s.authed (done s.grant) s.auth_ok in
      let info' : s.info ≡ hi =
        ground (arith, host_info_ok w peer req t (re_enroll w.clock peer) s.info s.info_ok, info) in
      let found' = subst (λ o. get_by_machine_id c' hi.machine_id o t.hosts ≡ ok h) org found in
      let known' =
        resolve_known w.find_conn c' w.ulid hi.machine_id s.grant.org_id t.hosts h up up' ne
          found' in
      let chosen : s.id
          ≡ resolve_host_id w.find_conn w.ulid hi.machine_id s.grant.org_id "" t.hosts =
        s.id_ok ∙ rw (first_time, info', same) refl in
      ground (arith, s.answer, chosen, known')
