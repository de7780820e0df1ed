-- ===== src/Agent/Access.antt =====
-- Which clients the gRPC server serves.
use praetor_server.Prelude.{
  ℕ, String, ◌≡◌, ◌≢◌, ◌⊎◌, refl, none, some, Option, List, [], ◌∷◌, arith, Bool-cases, inl, inr,
  eq_iff, string_eq, ◌==◌, ap,
}
use praetor_server.Result.{Conn}
use praetor_server.Peer.{
  AuthError, refused, empty_cn, Certificate, Peer, tls, host_id, host_id_from_stream,
  mtls_stream_enforcer,
}
use praetor_server.Authority.Root.{Ca}
use praetor_server.Store.Hosts.{get_by_id}
use praetor_server.Stream.Registry
use praetor_server.Stream.Handler.{Event, connect}
use praetor_server.Stream.Handler.Isolation.{connect_isolated}
use praetor_server.Prelude.{◌∙◌}
use praetor_server.Stream.Handler.Goroutines.{Pick, run_picks}
use praetor_server.Stream.Handler.Goroutines.Kept.{IsReported, run_picks-IsReported, run_picks-nil}
use praetor_server.Agent.{
  shaken, with_chains, after_connect, session_of, Server, Verify, connect_call, server_tls_config,
  handshake, serve,
}

-- The certificate that a client sends leads to the CA's root, and is for a host.
pub record IsAgent (ca : Ca) (verify : Verify) (client : Option String) (id : String) : Type 0 where
  pub sent : String
  pub given : client ≡ some sent
  pub cert : Certificate
  pub chain : List Certificate
  pub chains : List (List Certificate)
  pub verified : verify (ca.root_cert ∷ []) sent ≡ (cert ∷ chain) ∷ chains
  pub named : cert.common_name ≡ id

-- What a call of one host leaves as it was: tokens and identities, the rows in hosts and the streams
-- of all other hosts, all commands but those whose results the agent sent, and the security events,
-- behind which events that the agent sent can stand.
pub record IsOthers {M L : Type 0} (id : String) (es : List (Event M L)) (s after : Server)
    : Type 0 where
  pub tokens : after.tables.tokens ≡ s.tables.tokens
  pub identities : after.tables.identities ≡ s.tables.identities
  pub hosts :
      (c : Conn) (j : String)
      → id ≢ j
      → get_by_id c j after.tables.hosts ≡ get_by_id c j s.tables.hosts
  pub streams : (j : String) → id ≢ j → Registry.get j after.registry ≡ Registry.get j s.registry
  pub reported : IsReported es s.written after.written

module _ {M L : Type 0} (stream : ℕ) (es : List (Event M L)) (ps : List Pick) (s : Server) where
  -- the state after the session of a peer
  abbrev after_session : Peer → Server
  after_session peer = (after_connect s ps (connect peer stream es (session_of s))).1

  session-IsOthers :
      (peer : Peer) (id : String)
      → host_id_from_stream peer ≡ host_id id
      → IsOthers id es s (after_session peer)
  session-IsOthers peer id e =
      let (hosts, tasks, streams) = connect_isolated id peer e stream es (session_of s) in
      record {
        tokens = refl;
        identities = refl;
        hosts = hosts;
        reported =
            run_picks-IsReported id es ps (connect peer stream es (session_of s)).1.tasks s.written
              (tasks tt);
        streams = λ j ne. streams j ∙ ground (arith, ne, eq_iff id j);
      }

  -- no goroutine was started
  idle_keeps : record s { written = run_picks {M = M} {L = L} ps [] s.written } ≡ s
  idle_keeps = ap (λ t. record s { written = t }) (run_picks-nil M L ps s.written)

  refused_keeps :
      (peer : Peer) (x : AuthError) → host_id_from_stream peer ≡ refused x → after_session peer ≡ s
  unfolding connect
  refused_keeps peer x h = rw h idle_keeps

  module _ (ca : Ca) (verify : Verify) (sent : String) where
    chains-access :
        (v : List (List Certificate))
        → verify (ca.root_cert ∷ []) sent ≡ v
        → let after = (shaken (with_chains v) (connect_call stream es ps) s).1 in
          (after ≡ s) ⊎ ((id : String) × IsAgent ca verify (some sent) id × IsOthers id es s after)
    unfolding mtls_stream_enforcer host_id_from_stream connect
    chains-access [] e = inl refl
    chains-access ([] ∷ chains) e = inl idle_keeps
    chains-access ((cert ∷ chain) ∷ chains) e = elim (Bool-cases (cert.common_name == "")) [
      | inl y ↦ inl (refused_keeps (some (tls ((cert ∷ chain) ∷ chains))) empty_cn (rw y refl))
      | inr n ↦ inr (
        cert.common_name,
        record {
          sent = sent;
          given = refl;
          cert = cert;
          chain = chain;
          chains = chains;
          verified = e;
          named = refl;
        },
        session-IsOthers (some (tls ((cert ∷ chain) ∷ chains))) cert.common_name (rw n refl),
      )
    ]

-- A Connect, with whatever goroutines of it have got to the database and in whatever order, changes
-- nothing unless its client has sent a certificate that leads to the root of the server's CA. Then it
-- changes neither tokens nor identities, nor the row in hosts or the stream of any host but the one
-- that the certificate names. The results and the security events that the agent sends are written
-- under the ids that they name, whatever host those are of: of the commands only those change for
-- whose ids a result was sent, and the new security events are ones that were sent, under the host
-- ids in them, behind the old ones.
pub connect_access :
    {M L : Type 0} (ca : Ca) (verify : Verify) (client : Option String) (stream : ℕ)
    (es : List (Event M L)) (ps : List Pick) (s : Server)
    → let after = (serve (server_tls_config ca) verify client (connect_call stream es ps) s).1 in
      (after ≡ s) ⊎ ((id : String) × IsAgent ca verify client id × IsOthers id es s after)
unfolding serve handshake server_tls_config mtls_stream_enforcer
connect_access ca verify none stream es ps s = inl refl
connect_access ca verify (some sent) stream es ps s =
    chains-access stream es ps s ca verify sent (verify (ca.root_cert ∷ []) sent) refl
