-- ===== src/Enrollment/Certified.antt =====
-- Enroll with the CA of internal/ca/ca.go, and the stream that its certificate opens.
use praetor_server.Prelude.{
  ℕ, String, ◌≡◌, ◌≢◌, refl, ap, ◌∙◌, none, some, Option, List, [], ◌∷◌, arith, eq_iff, is_none,
  if◌then◌else◌, ◌-◌, ◌%◌,
}
use praetor_server.Authority.{
  Library, Issue, issued, rejected, issue_client, Template, PublicKey, template,
}
use praetor_server.Authority.Issuing.{IsIssued, issue_client-IsIssued}
use praetor_server.Authority.Root.{Ca}
use praetor_server.Peer.{Peer, Certificate, mtls_stream_enforcer, host_id_from_stream}
use praetor_server.Stream.Registry
use praetor_server.Stream.Handler.{Event, Exit, connect}
use praetor_server.Stream.Handler.Isolation.{connect_isolated}
use praetor_server.Stream.Handler.{Task}
use praetor_server.Prelude.{◌+◌, ◌≤◌}
use praetor_server.Authority.{client_auth}
use praetor_server.Peer.{tls, host_id, host_id_from_stream, mtls_stream_enforcer}
use praetor_server.Stream.Handler.Goroutines.{Pick}
use praetor_server.Agent.{
  after_connect, streamed, streamed, Verify, Server, serve, server_tls_config, connect_call,
  session_of, handshake,
}
use praetor_server.Enrollment.{
  World, Tables, EnrollRequest, EnrollResponse, done, enroll, client_cert_ttl,
}
use praetor_server.Enrollment.Issued.{enroll_identity}

abbrev pem_of : Issue → Option String
pem_of (issued pem) = some pem
pem_of (rejected e) = none

-- The world of Enroll in which step 5 is IssueClient of the CA.
abbrev pub with_ca : Library → World → World
with_ca l w = record w {
  issue_client =
      λ csr_pem host_id. pem_of (issue_client l w.clock_later csr_pem host_id client_cert_ttl);
}

pem_of-issued : (i : Issue) (pem : String) → pem_of i ≡ some pem → i ≡ issued pem
pem_of-issued (issued p) pem h = ground (arith, h)
pem_of-issued (rejected e) pem h = absurd (ground (arith, h))

module _ (l : Library) (w : World) (peer : Peer) (req : EnrollRequest) (t t' : Tables)
    (resp : EnrollResponse) (e : enroll (with_ca l w) peer req t ≡ (done resp, t')) where
  -- A successful Enroll answers a certificate that the CA has issued for the CSR that was sent, which
  -- it has checked, and for the host id that is answered.
  pub enroll-IsIssued :
      IsIssued l w.clock_later req.csr_pem resp.agent_id client_cert_ttl resp.cert_pem
  enroll-IsIssued =
      let identity = enroll_identity (with_ca l w) peer req t t' resp e in
      issue_client-IsIssued l w.clock_later req.csr_pem resp.agent_id client_cert_ttl resp.cert_pem
        (pem_of-issued (issue_client l w.clock_later req.csr_pem resp.agent_id client_cert_ttl)
          resp.cert_pem identity.0)

-- the times of X.509 are whole seconds: what follows the second is cut
abbrev pub whole_seconds : ℕ → ℕ
whole_seconds t = t - t % 1_000_000_000

-- crypto/tls at a time of the clock: a certificate that the root has signed for client authentication
-- and that is valid then has a chain, which starts with it, under the name of its template.
abbrev pub IsVerifying : Library → Ca → Verify → ℕ → Type 0
IsVerifying l ca verify now =
    (t : Template) (key : PublicKey) (der : String)
    → l.create t key ≡ some der
    → t.ext_key_usage ≡ client_auth ∷ []
    → t.not_before ≤ now
    → now ≤ whole_seconds t.not_after
    → (chain : List Certificate) × (chains : List (List Certificate)) × (verify (ca.root_cert ∷ [])
          (l.pem_encode "CERTIFICATE" der)
        ≡ (record { common_name = t.common_name; not_after = whole_seconds t.not_after } ∷ chain)
          ∷ chains)

module _ {M L : Type 0} (ca : Ca) (verify : Verify) (stream : ℕ) (es : List (Event M L))
    (ps : List Pick) (s : Server) where
  -- A certificate with a chain is a session of the host that it names.
  chain_connects :
      (sent id : String) (cert : Certificate) (chain : List Certificate)
      (chains : List (List Certificate))
      → verify (ca.root_cert ∷ []) sent ≡ (cert ∷ chain) ∷ chains
      → cert.common_name ≡ id
      → id ≢ ""
      → let o = serve (server_tls_config ca) verify (some sent) (connect_call stream es ps) s in
        (exit : Option Exit) × (tasks : List (Task M L)) × (o.0 ≡ streamed exit tasks)
        × (Registry.get id o.1.registry ≡ (if is_none exit then some stream else none))
  unfolding serve handshake server_tls_config mtls_stream_enforcer host_id_from_stream
  chain_connects sent id cert chain chains v name ne =
      let peer : Peer = some (tls ((cert ∷ chain) ∷ chains)) in
      let o = connect peer stream es (session_of s) in
      let speaks : host_id_from_stream peer ≡ host_id id = ground (arith, name, ne, eq_iff id "") in
      let done : serve (server_tls_config ca) verify (some sent) (connect_call stream es ps) s
          ≡ after_connect s ps o =
        rw v refl in
      let (_, _, streams) = connect_isolated id peer speaks stream es (session_of s) in
      (
        o.0,
        o.1.tasks,
        ap (λ x. x.0) done,
        ap (λ x. Registry.get id x.1.registry) done ∙ (streams id ∙ ground (arith, eq_iff id id)),
      )

module _ {M L : Type 0} (l : Library) (ca : Ca) (verify : Verify) (now : ℕ)
    (verifying : IsVerifying l ca verify now) where
  -- An agent that has enrolled, with a host id that is not empty, can open its stream with the
  -- certificate that it got, for 24 hours cut to the second, as crypto/tls accepts what the root has
  -- signed for clients: while the call runs the registry has the stream under the host id that Enroll
  -- answered.
  pub enrolled_connects :
      (w : World) (peer : Peer) (req : EnrollRequest) (t t' : Tables) (resp : EnrollResponse)
      → enroll (with_ca l w) peer req t ≡ (done resp, t')
      → resp.agent_id ≢ ""
      → w.clock_later ≤ now
      → now ≤ whole_seconds (w.clock_later + client_cert_ttl)
      → (stream : ℕ) (es : List (Event M L)) (ps : List Pick) (s : Server)
      → let o =
          serve (server_tls_config ca) verify (some resp.cert_pem) (connect_call stream es ps) s in
        (exit : Option Exit) × (tasks : List (Task M L)) × (o.0 ≡ streamed exit tasks)
        × (Registry.get resp.agent_id o.1.registry ≡ (if is_none exit then some stream else none))
  enrolled_connects w peer req t t' resp e ne from to stream es ps s =
      let issued = enroll-IsIssued l w peer req t t' resp e in
      let c = issued.certified in
      let (chain, chains, v) =
        verifying (template w.clock_later c.serial resp.agent_id client_cert_ttl) issued.csr.key
          c.der c.made refl (omega (arith, from)) to in
      chain_connects ca verify stream es ps s resp.cert_pem resp.agent_id
        (record {
          common_name = resp.agent_id;
          not_after = whole_seconds (w.clock_later + client_cert_ttl);
        })
        chain chains (ap (verify (ca.root_cert ∷ [])) c.encoded ∙ v) refl ne
