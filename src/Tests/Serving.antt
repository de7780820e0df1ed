-- ===== src/Tests/Serving.antt =====
-- Runs of the process and of its two servers.
use praetor_server.Prelude.{
  refl, String, ◌≡◌, ◌≢◌, ◌⊎◌, ap, true, none, some, List, [], ◌∷◌, ◌++◌, codes, length, arith, pos,
  false, ℕ, Option, sym,
}
use praetor_server.Stream.Handler.{Event, message, heartbeat, security_event}
use praetor_server.Stream.Handler.Goroutines.{Pick}
use praetor_server.Agent.{Server, Verify, serve, server_tls_config, connect_call}
use praetor_server.Agent.Access.{IsAgent, IsOthers, connect_access}
use praetor_server.Api.Routes as Routes
use praetor_server.Api.Routes.Safe.{IsShut, serve-IsShut}
use praetor_server.Api.Queries.{absent}
use praetor_server.Process as Process
use praetor_server.Process.{run_server}
use praetor_server.Process.Order.{IsFailed, IsOrderly, run_server_ordered}
use praetor_server.Store.Configs.Abstract.{Op, set, read, run, run_spec}
use praetor_server.Store.Configs.Refinement.{run_refines}
use praetor_server.Store.Configs.{default_config}
use praetor_server.Tests.Data.{up_at, a_token, a_host, any_host}
use praetor_server.Tests.Commands.{number_of}
use praetor_server.Tests.Root.{crypto, os, random, ca}
use praetor_server.Tests.Cli.{env}
use praetor_server.Tests.Authority.{functions}
use praetor_server.Tests.Enrollments.{world, tables, answer, request as request_of_agent}
use praetor_server.Agent
use praetor_server.Agent.{streamed}
use praetor_server.Store.Identities
use praetor_server.Stream.Registry
use praetor_server.Stream.Handler.{Exit, Task}
use praetor_server.Authority.Serial.{random_serial, set_bytes}
use praetor_server.Authority.{Library, issue_client, has_constraint, key_error, Template}
use praetor_server.Enrollment.Certified.{IsVerifying, with_ca, enrolled_connects, whole_seconds}
use praetor_server.Enrollment.{
  Tables, done, client_cert_ttl, enroll, re_enroll, shape, shaped, authenticate, granted, certified,
  resolve_host_id, link_token,
}
use praetor_server.Token.{parse_and_validate, split, contains, has_prefix}
use praetor_server.Store.Tokens.{claim, link_host}
use praetor_server.Store.Hosts.{upsert}
use praetor_server.Sql.{select, update_where, exists_where}
use praetor_server.Prelude.{
  Bool-cases, inl, inr, nat_beq, nat_beq_iff, eq_iff, if◌then◌else◌, is_none, ◌+◌,
}

-- the library finds a chain for the certificate that names h1
abbrev verify : Verify
verify roots sent = (record { common_name = sent; not_after = 900 } ∷ []) ∷ []

abbrev server : Server
server = record {
  tables = record {
    tokens = a_token ∷ [];
    hosts = a_host ∷ [];
    identities = record { rows = []; next_id = 1 };
  };
  registry = [];
  written = record { commands = []; events = record { rows = []; next_id = 1 } };
}

-- a heartbeat, and a security event that names another host
abbrev session : List (Event String String)
session =
    message (up_at 7) 7 (heartbeat none)
    ∷ message (up_at 8) 8 (
        security_event (record {
          host_id = "h2";
          timestamp = none;
          type = "login";
          source = "sshd";
          content = none;
          raw = "";
        }))
    ∷ []

-- the second goroutine, that of the event, is the first to get to the database
abbrev picks : List Pick
picks = record { index = 1; conn = up_at 9; hosts = any_host; clock = 9 } ∷ []

abbrev served : Server
served = (serve (server_tls_config ca) verify (some "h1") (connect_call 4 session picks) server).1

connect_access_example :
    (served ≡ server)
    ⊎ ((id : String) × IsAgent ca verify (some "h1") id × IsOthers id session server served)
connect_access_example = connect_access ca verify (some "h1") 4 session picks server

abbrev settings : Routes.Settings
settings = record { api_key = codes "key"; org_id = "acme" }

abbrev rest_server : Routes.Server
rest_server = record {
  hosts = a_host ∷ [];
  tokens = a_token ∷ [];
  events = record { rows = []; next_id = 1 };
  broker = record { buckets = []; commands = []; registry = []; sent = [] };
}

abbrev rest_world : Routes.World
rest_world = record {
  conn = up_at 7;
  now = 7;
  token = none;
  collation = λ a b. true;
  broker = record {
    clock = 7;
    ulid = "c1";
    marshals = true;
    conn = up_at 7;
    hosts = any_host;
    sends = λ stream. true;
    tier_number = number_of;
  };
}

abbrev request : Routes.Request
request = record {
  method = "DELETE";
  path = "v1" ∷ "tokens" ∷ "t1" ∷ [];
  authorization = codes "Bearer wrong";
  host_id = "";
  limit = [];
  include = [];
  since = absent;
  token_body = none;
  command_body = none;
}

wrong_key : request.authorization ≢ codes "Bearer " ++ settings.api_key
wrong_key e = let n = ap length e in ground (arith, n)

serve-IsShut_example : IsShut rest_server (Routes.serve settings rest_world request rest_server)
serve-IsShut_example = serve-IsShut settings rest_world request rest_server wrong_key

abbrev process : Process.World
process = record {
  env = env;
  crypto = crypto;
  os = os;
  random = random;
  now = 7;
  directory = λ path. [];
  listen = λ address. true;
  grpc = Process.serves;
  http = Process.refused;
  order = false ∷ [];
  graceful = true;
  idle = false;
  drained = true;
}

run_server_ordered_example :
    IsFailed (run_server process []) ⊎ IsOrderly process (run_server process [])
run_server_ordered_example = run_server_ordered process []

abbrev calls : List Op
calls =
    read (up_at 1) "h1"
    ∷ set (up_at 2) any_host "h1" "heartbeat_interval_seconds" (pos 60)
    ∷ set (up_at 3) any_host "h1" "log_sources" (pos 1)
    ∷ read (up_at 4) "h1"
    ∷ []

run_refines_example : run calls [] ≡ run_spec calls default_config
run_refines_example = run_refines calls

-- a library whose certificates are those that end at one time
abbrev end_of_day : ℕ
end_of_day = 11 + client_cert_ttl

abbrev library : Library
library = record functions {
  create = λ t key. if nat_beq t.not_after end_of_day then some t.common_name else none;
}

abbrev verify_all : Verify
verify_all roots sent =
    (record { common_name = sent; not_after = whole_seconds end_of_day } ∷ []) ∷ []

kept :
    (t : Template)
    → nat_beq t.not_after end_of_day ≡ true
    → (der : String)
    → (if nat_beq t.not_after end_of_day then some t.common_name else none) ≡ some der
    → verify_all (ca.root_cert ∷ []) der
      ≡ (record { common_name = t.common_name; not_after = whole_seconds t.not_after } ∷ []) ∷ []
kept t y der made =
    let name : der ≡ t.common_name = ground (arith, y, made) in
    let time : end_of_day ≡ t.not_after = sym ((nat_beq_iff t.not_after end_of_day).0 y) in
    cc (name, ap whole_seconds time)

verifying : IsVerifying library ca verify_all 20
verifying t key der made usage from to = elim (Bool-cases (nat_beq t.not_after end_of_day)) [
  | inr n ↦ absurd (ground (arith, n, made))
  | inl y ↦ ([], [], kept t y der made)
]

abbrev enrolled_after : Tables
enrolled_after = (enroll (with_ca library world) none request_of_agent tables).1

enrolled_ok :
    enroll (with_ca library world) none request_of_agent tables ≡ (done answer, enrolled_after)
unfolding random_serial set_bytes enroll re_enroll shape shaped authenticate granted certified
    resolve_host_id parse_and_validate split contains has_prefix claim select update_where upsert
    exists_where Identities.insert link_token link_host issue_client has_constraint key_error
enrolled_ok = refl

named : answer.agent_id ≢ ""
named e = ground (arith, e, eq_iff "h1" "")

abbrev opened : Agent.Answer String String × Server
opened = serve (server_tls_config ca) verify_all (some "h1") (connect_call 4 session picks) server

enrolled_connects_example :
    (exit : Option Exit) × (tasks : List (Task String String)) × (opened.0 ≡ streamed exit tasks)
    × (Registry.get "h1" opened.1.registry ≡ (if is_none exit then some 4 else none))
enrolled_connects_example =
    enrolled_connects library ca verify_all 20 verifying world none request_of_agent tables
      enrolled_after answer enrolled_ok named (omega arith) (omega arith) 4 session picks server
