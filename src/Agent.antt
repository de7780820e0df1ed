-- ===== src/Agent.antt =====
-- The gRPC server: the TLS configuration of internal/ca/ca.go, the interceptors that main registers,
-- and internal/agent/service.go, which hands the calls on to enrollment and to the stream handler.
pub mod Access
use praetor_server.Prelude.{ℕ, String, Option, none, some, List, [], ◌∷◌}
use praetor_server.Peer.{Certificate, Peer, tls, AuthError, mtls_enforcer, mtls_stream_enforcer}
use praetor_server.Authority.Root.{RootCertificate, TlsCertificate, Ca}
use praetor_server.Enrollment.{World, Tables, EnrollRequest, EnrollResponse, Outcome, enroll}
use praetor_server.Stream.Registry.{Registry}
use praetor_server.Command.Broker.{CommandRequest}
use praetor_server.Stream.Handler.Goroutines.{Pick, run_picks}
use praetor_server.Stream.Handler.{Written, Session, Event, Exit, Task, connect}

-- tls.ClientAuthType
pub data ClientAuth : Type 0 where
  no_client_cert verify_client_cert_if_given require_and_verify_client_cert : ClientAuth

pub record TlsConfig : Type 0 where
  pub certificates : List TlsCertificate
  pub client_auth : ClientAuth
  pub client_cas : List RootCertificate
  pub min_version : String

-- ServerTLSConfig
unfoldable pub server_tls_config : Ca → TlsConfig
server_tls_config ca = record {
  certificates = ca.server_tls ∷ [];
  client_auth = verify_client_cert_if_given;
  client_cas = ca.root_cert ∷ [];
  min_version = "1.3";
}

-- The certificates that a client sends are verified by crypto/tls: `verify` gives the chains from them
-- to one of the roots, the client's certificate first, and none if there is no such chain.
abbrev pub Verify : Type 0
Verify = List RootCertificate → String → List (List Certificate)

-- A handshake gives the peer of the calls, or fails.
abbrev pub with_chains : List (List Certificate) → Option Peer
with_chains [] = none
with_chains (chain ∷ chains) = some (some (tls (chain ∷ chains)))

abbrev handshake_with : ClientAuth → Verify → List RootCertificate → Option String → Option Peer
handshake_with no_client_cert verify roots client = some (some (tls []))
handshake_with verify_client_cert_if_given verify roots none = some (some (tls []))
handshake_with verify_client_cert_if_given verify roots (some sent) =
    with_chains (verify roots sent)
handshake_with require_and_verify_client_cert verify roots none = none
handshake_with require_and_verify_client_cert verify roots (some sent) =
    with_chains (verify roots sent)

unfoldable pub handshake : TlsConfig → Verify → Option String → Option Peer
handshake t verify client = handshake_with t.client_auth verify t.client_cas client

-- What the two services share and write: all tables but that of the configurations.
pub record Server : Type 0 where
  pub tables : Tables
  pub registry : Registry
  pub written : Written CommandRequest

-- A Connect comes with its events and with the goroutines that have got to the database. A call of
-- Enroll comes with the generated name of this method, which is the one that the interceptor
-- lets through.
module _ (M L : Type 0) where
  pub data Call : Type 0 where
    enroll_call : String → World → EnrollRequest → Call
    connect_call : ℕ → List (Event M L) → List Pick → Call

  -- `rejected` is a call that an interceptor has ended.
  pub data Answer : Type 0 where
    no_handshake : Answer
    rejected : AuthError → Answer
    enrolled : Outcome EnrollResponse → Answer
    streamed : Option Exit → List (Task M L) → Answer

module _ {M L : Type 0} where
  -- a session that has sent nothing yet
  abbrev pub session_of : Server → Session M L
  session_of s = record {
    registry = s.registry;
    hosts = s.tables.hosts;
    pings = [];
    acks = [];
    tasks = [];
  }

  abbrev after_enroll : Server → Outcome EnrollResponse × Tables → Answer M L × Server
  after_enroll s (o, t) = (enrolled o, record s { tables = t })

  abbrev pub after_connect : Server → List Pick → Option Exit × Session M L → Answer M L × Server
  after_connect s ps (x, e) = (
    streamed x e.tasks,
    record s {
      tables = record (s.tables) { hosts = e.hosts };
      registry = e.registry;
      written = run_picks ps e.tasks s.written;
    },
  )

  abbrev unary : Option AuthError → Peer → World → EnrollRequest → Server → Answer M L × Server
  unary (some e) peer w req s = (rejected e, s)
  unary none peer w req s = after_enroll s (enroll w peer req s.tables)

  abbrev pub streaming :
      Option AuthError → Peer → ℕ → List (Event M L) → List Pick → Server → Answer M L × Server
  streaming (some e) peer stream es ps s = (rejected e, s)
  streaming none peer stream es ps s = after_connect s ps (connect peer stream es (session_of s))

  -- Enroll and Connect of the service, behind their interceptors
  abbrev pub dispatch : Peer → Call M L → Server → Answer M L × Server
  dispatch peer (enroll_call method w req) s = unary (mtls_enforcer method method peer) peer w req s
  dispatch peer (connect_call stream es ps) s =
      streaming (mtls_stream_enforcer peer) peer stream es ps s

  abbrev pub shaken : Option Peer → Call M L → Server → Answer M L × Server
  shaken none call s = (no_handshake, s)
  shaken (some peer) call s = dispatch peer call s

  -- One call of a client that sends `client` as its certificate.
  unfoldable pub serve :
      TlsConfig → Verify → Option String → Call M L → Server → Answer M L × Server
  serve t verify client call s = shaken (handshake t verify client) call s
