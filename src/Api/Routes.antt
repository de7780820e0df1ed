-- ===== src/Api/Routes.antt =====
-- Routes and handleHealthz of internal/api: from a request to its reply and to the state of the
-- server. The patterns are matched as net/http's ServeMux does.
pub mod Safe
pub mod AccessLog
use praetor_server.Prelude.{
  ℕ, String, Bool, true, false, ◌||◌, ◌&&◌, not, Option, none, some, List, [], ◌∷◌, Bytes,
  if◌then◌else◌, ◌==◌, string_eq,
}
use praetor_server.Result.{Conn}
use praetor_server.Token.{Token}
use praetor_server.Store.Tokens.{Tokens}
use praetor_server.Store.Hosts.{Hosts}
use praetor_server.Store.SecurityEvents.{SecurityEvents}
use praetor_server.Command.Broker as Broker
use praetor_server.Api.{Reply, failure, success, status_of}
use praetor_server.Api.Auth.{bearer_auth}
use praetor_server.Api.Tokens.{
  TokenResponse, IssueTokenRequest, IssueTokenResponse, handle_list_tokens, handle_issue_token,
  handle_revoke_token,
}
use praetor_server.Api.Commands.{
  IssueCommandRequest, CommandResponse, handle_issue_command, handle_get_command,
  handle_list_commands,
}
use praetor_server.Api.Queries.{
  HostResponse, SecurityEventResponse, Since, handle_list_hosts, handle_get_host,
  handle_list_security_events,
}

-- A request: the segments of its path between the slashes, decoded, the header Authorization, and
-- what the handlers read of the query and of the body.
pub record Request : Type 0 where
  pub method : String
  pub path : List String
  pub authorization : Bytes
  pub host_id : String
  pub limit : Bytes
  pub include : Bytes
  pub since : Since
  pub token_body : Option IssueTokenRequest
  pub command_body : Option IssueCommandRequest

-- The handlers that the inner mux knows, with the value of {id}.
pub data Route : Type 0 where
  list_hosts list_tokens issue_token issue_command list_commands list_security_events : Route
  get_host revoke_token get_command : String → Route

-- a pattern for GET is one for HEAD, too
abbrev pub serves : String → String → Bool
serves pattern method = pattern == method || (pattern == "GET" && method == "HEAD")

-- the methods and handlers of a path
abbrev pub collection : String → List (String × Route)
collection name =
    if name == "hosts"
    then ("GET", list_hosts) ∷ []
    else if name == "tokens"
    then ("GET", list_tokens) ∷ ("POST", issue_token) ∷ []
    else if name == "commands"
    then ("POST", issue_command) ∷ ("GET", list_commands) ∷ []
    else if name == "security-events"
    then ("GET", list_security_events) ∷ []
    else []

abbrev pub member : String → String → List (String × Route)
member name id =
    if id == ""
    then []
    else if name == "hosts"
    then ("GET", get_host id) ∷ []
    else if name == "tokens"
    then ("DELETE", revoke_token id) ∷ []
    else if name == "commands"
    then ("GET", get_command id) ∷ []
    else []

-- behind /v1/
abbrev pub patterns : List String → List (String × Route)
patterns (name ∷ []) = collection name
patterns (name ∷ id ∷ []) = member name id
patterns _ = []

pub data Match : Type 0 where
  matched : Route → Match
  wrong_method no_match : Match

unfoldable pub pick : String → List (String × Route) → Match
pick method [] = wrong_method
pick method ((pattern, route) ∷ more) =
    let rest = pick method more in if serves pattern method then matched route else rest

abbrev pub among : String → List (String × Route) → Match
among method [] = no_match
among method (p ∷ ps) = pick method (p ∷ ps)

unfoldable pub match_v1 : String → List String → Match
match_v1 method rest = among method (patterns rest)

-- path.Clean leaves a path as it is if no segment is empty, but for the last, and none is a dot or
-- two.
abbrev is_dots : String → Bool
is_dots s = s == "." || s == ".."

unfoldable pub is_clean : List String → Bool
is_clean [] = true
is_clean (s ∷ []) = not (is_dots s)
is_clean (s ∷ t ∷ rest) =
    let more = is_clean (t ∷ rest) in if s == "" || is_dots s then false else more

-- What the server holds, and what a request finds: the database, the clock, the token that Generate
-- makes, and the world of the broker.
pub record Server : Type 0 where
  pub hosts : Hosts
  pub tokens : Tokens
  pub events : SecurityEvents
  pub broker : Broker.State

pub record World : Type 0 where
  pub conn : Conn
  pub now : ℕ
  pub token : Option Token
  pub collation : String → String → Bool
  pub broker : Broker.World

-- APIKey and OrgID of the configuration
pub record Settings : Type 0 where
  pub api_key : Bytes
  pub org_id : String

pub data Body : Type 0 where
  health : Body
  hosts : List HostResponse → Body
  host : HostResponse → Body
  tokens : List TokenResponse → Body
  issued : IssueTokenResponse → Body
  revoked : Body
  command_id : String → Body
  commands : List CommandResponse → Body
  command : CommandResponse → Body
  events : List SecurityEventResponse → Body

-- Answers: those of the mux are a redirection to the clean path, 404 and 405.
pub data Answer : Type 0 where
  redirected not_found method_not_allowed : Answer
  replied : Reply Body → Answer

abbrev body : {B : Type 0} → (B → Body) → Reply B → Answer
body f (failure e) = replied (failure e)
body f (success status b) = replied (success status (f b))

abbrev tokens_after : {B : Type 0} → (B → Body) → Server → Reply B × Tokens → Answer × Server
tokens_after f s (r, t) = (body f r, record s { tokens = t })

abbrev broker_after : Server → Reply String × Broker.State → Answer × Server
broker_after s (r, b) = (body command_id r, record s { broker = b })

-- the handler of a route
unfoldable pub handle : Settings → World → Request → Route → Server → Answer × Server
handle c w r list_hosts s = (body hosts (handle_list_hosts w.collation w.conn c.org_id s.hosts), s)
handle c w r (get_host id) s = (body host (handle_get_host w.conn id s.hosts), s)
handle c w r list_tokens s =
    (body tokens (handle_list_tokens w.conn c.org_id r.include s.tokens), s)
handle c w r issue_token s =
    tokens_after issued s (handle_issue_token w.conn c.org_id w.now w.token r.token_body s.tokens)
handle c w r (revoke_token id) s =
    tokens_after (λ u. revoked) s (handle_revoke_token w.conn id s.tokens)
handle c w r issue_command s =
    broker_after s (handle_issue_command w.broker r.command_body s.broker)
handle c w r list_commands s =
    (body commands (handle_list_commands w.conn r.host_id r.limit s.broker.commands), s)
handle c w r (get_command id) s = (body command (handle_get_command w.conn id s.broker.commands), s)
handle c w r list_security_events s =
    (body events (handle_list_security_events w.conn r.host_id w.now r.since r.limit s.events), s)

abbrev pub routed : Settings → World → Request → Match → Server → Answer × Server
routed c w r (matched route) s = handle c w r route s
routed c w r wrong_method s = (method_not_allowed, s)
routed c w r no_match s = (not_found, s)

-- bearerAuth before the inner mux: it calls the next handler, or answers itself
abbrev pub authorized :
    Settings → World → Request → List String → Reply (Unit {0}) → Server → Answer × Server
authorized c w r rest (failure e) s = (replied (failure e), s)
authorized c w r rest (success status u) s = routed c w r (match_v1 r.method rest) s

unfoldable pub behind_auth : Settings → World → Request → List String → Server → Answer × Server
behind_auth c w r rest s =
    authorized c w r rest (bearer_auth c.api_key r.authorization (success 200 tt)) s

abbrev healthz : Request → Answer
healthz r = if serves "GET" r.method then replied (success 200 health) else method_not_allowed

-- The outer mux: GET /healthz and /v1/, where /v1 alone is redirected.
abbrev pub outer : Settings → World → Request → List String → Server → Answer × Server
outer c w r [] s = (not_found, s)
outer c w r (name ∷ []) s =
    if name == "healthz"
    then (healthz r, s)
    else if name == "v1"
    then (redirected, s)
    else (not_found, s)
outer c w r (name ∷ next ∷ rest) s =
    let inner = behind_auth c w r (next ∷ rest) s in if name == "v1" then inner else (not_found, s)

unfoldable pub serve : Settings → World → Request → Server → Answer × Server
serve c w r s = if is_clean r.path then outer c w r r.path s else (redirected, s)
