-- ===== src/Peer.antt =====
-- What a gRPC handler knows of its caller, and the two interceptors of cmd/praetor-server/main.go
-- that ask for a client certificate.
use praetor_server.Prelude.{
  ℕ, String, Option, none, some, List, [], ◌∷◌, if◌then◌else◌, ◌==◌, string_eq,
}

-- The fields of a verified certificate that the server reads.
pub record Certificate : Type 0 where
  pub common_name : String
  pub not_after : ℕ

-- p.AuthInfo is TLS information with its verified chains, or something else.
pub data AuthInfo : Type 0 where
  tls : List (List Certificate) → AuthInfo
  other : AuthInfo

-- peer.FromContext: `none` if the context has no peer
abbrev pub Peer : Type 0
Peer = Option AuthInfo

pub data AuthError : Type 0 where
  no_peer no_tls no_certificate empty_cn : AuthError

-- An interceptor passes the call on (`none`), or ends it as unauthenticated.
require_chain : Peer → Option AuthError
require_chain none = some no_peer
require_chain (some other) = some no_certificate
require_chain (some (tls [])) = some no_certificate
require_chain (some (tls (chain ∷ chains))) = none

-- `enroll` stands for the generated name of the Enroll method.
unfoldable pub mtls_enforcer : String → String → Peer → Option AuthError
unfolding require_chain
mtls_enforcer enroll method peer = if method == enroll then none else require_chain peer

unfoldable pub mtls_stream_enforcer : Peer → Option AuthError
unfolding require_chain
mtls_stream_enforcer peer = require_chain peer

-- hostIDFromStream of internal/stream/handler.go, or its error.
pub data HostId : Type 0 where
  host_id : String → HostId
  refused : AuthError → HostId

named : String → HostId
named cn = if cn == "" then refused empty_cn else host_id cn

unfoldable pub host_id_from_stream : Peer → HostId
unfolding named
host_id_from_stream none = refused no_peer
host_id_from_stream (some other) = refused no_tls
host_id_from_stream (some (tls [])) = refused no_certificate
host_id_from_stream (some (tls ([] ∷ chains))) = refused no_certificate
host_id_from_stream (some (tls ((cert ∷ chain) ∷ chains))) = named cert.common_name

-- The certificate that speaks for the caller: the first of the first verified chain.
abbrev pub leaf : Peer → Option Certificate
leaf none = none
leaf (some other) = none
leaf (some (tls [])) = none
leaf (some (tls ([] ∷ chains))) = none
leaf (some (tls ((cert ∷ chain) ∷ chains))) = some cert
