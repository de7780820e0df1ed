-- ===== src/Command/Broker.antt =====
-- internal/command/broker.go: commands are limited, stored, and pushed to the agent.
pub mod Audit
pub mod Ready
pub mod Completed
use praetor_server.Prelude.{
  ℕ, ℤ, pos, String, Bool, true, false, Option, none, some, List, [], ◌∷◌, ◌++◌, if◌then◌else◌,
}
use praetor_server.Result.{Error, Result, ok, err, Conn}
use praetor_server.Store.Commands
use praetor_server.Store.Commands.{CommandExecution, Outcome}
use praetor_server.Stream.Registry
use praetor_server.Stream.Registry.{Registry}
use praetor_server.Command.RateLimit.{Buckets, allow}

-- the two typed payloads of a command
pub record DiagnosticCommand : Type 0 where
  pub check : ℕ
  pub params : List (String × String)

pub record ShellCommand : Type 0 where
  pub binary : String
  pub args : List String

-- The dynamic type of IssueRequest.Command; Issue refuses any other.
pub data Command : Type 0 where
  diagnostic : DiagnosticCommand → Command
  shell : ShellCommand → Command
  unknown : Command

pub data Tier : Type 0 where
  safe validated : Tier

pub record IssueRequest : Type 0 where
  pub host_id : String
  pub tier : Tier
  pub reason : String
  pub issued_by : String
  pub timeout : ℤ
  pub command : Command

-- the message that the agent gets, which is also what is stored
pub record CommandRequest : Type 0 where
  pub id : String
  pub tier : Tier
  pub reason : String
  pub issued_by : String
  pub timeout_seconds : ℤ
  pub command : Command

-- A message put on the stream of an agent.
pub record Sent : Type 0 where
  pub stream : ℕ
  pub request : CommandRequest

-- What Issue reads and writes, and the messages that went out.
pub record State : Type 0 where
  pub buckets : Buckets
  pub commands : List (CommandExecution CommandRequest)
  pub registry : Registry
  pub sent : List Sent

-- The errors of Issue.
pub data IssueError : Type 0 where
  rate_limited unknown_command marshal_failed : IssueError
  store_failed : Error → IssueError
  not_connected send_failed : IssueError

-- What the world answers to one call: the clock, the new ULID, whether json.Marshal works, the
-- database, and whether a Send on a stream works; and int(tier) of the generated enum.
pub record World : Type 0 where
  pub clock : ℕ
  pub ulid : String
  pub marshals : Bool
  pub conn : Conn
  pub hosts : String → Bool
  pub sends : ℕ → Bool
  pub tier_number : Tier → ℕ

abbrev pub request_of : String → IssueRequest → CommandRequest
request_of id req = record {
  id = id;
  tier = req.tier;
  reason = req.reason;
  issued_by = req.issued_by;
  timeout_seconds = req.timeout;
  command = req.command;
}

-- The columns that Issue leaves out of the record are the zero values.
abbrev pub execution_of : (Tier → ℕ) → String → IssueRequest → CommandExecution CommandRequest
execution_of number id req = record {
  id = id;
  host_id = req.host_id;
  tier = number req.tier;
  command_json = request_of id req;
  reason = req.reason;
  issued_by = req.issued_by;
  issued_at = 0;
  completed_at = none;
  exit_code = none;
  stdout = none;
  stderr = none;
  stdout_truncated = false;
  stderr_truncated = false;
  duration_ms = none;
  error = none;
  status = "";
}

-- Issue returns an id, "" where the Go code returns "", and an error or nil.
abbrev pub Reply : Type 0
Reply = String × Option IssueError

-- the push to the agent, once the record is stored
unfoldable push : World → IssueRequest → Option ℕ → State → Reply × State
push w req none s = ((w.ulid, some not_connected), s)
push w req (some stream) s =
    if w.sends stream
    then (
      (w.ulid, none),
      record s {
        sent = s.sent ++ record { stream = stream; request = request_of w.ulid req } ∷ [];
      },
    )
    else ((w.ulid, some send_failed), s)

unfoldable after_store :
    World
    → IssueRequest
    → State
    → Result (Unit {0}) × List (CommandExecution CommandRequest)
    → Reply × State
after_store w req s (err e, rows) = (("", some (store_failed e)), record s { commands = rows })
after_store w req s (ok u, rows) =
    push w req (Registry.get req.host_id s.registry) (record s { commands = rows })

unfoldable store : World → IssueRequest → State → Reply × State
store w req s =
    if w.marshals
    then after_store w req s
        (Commands.insert w.conn w.hosts (execution_of w.tier_number w.ulid req) s.commands)
    else (("", some marshal_failed), s)

-- the type switch on req.Command
unfoldable build : World → IssueRequest → Command → State → Reply × State
build w req unknown s = (("", some unknown_command), s)
build w req (diagnostic c) s = store w req s
build w req (shell c) s = store w req s

unfoldable limited : World → IssueRequest → State → Bool × Buckets → Reply × State
limited w req s (false, m) = (("", some rate_limited), record s { buckets = m })
limited w req s (true, m) = build w req req.command (record s { buckets = m })

unfoldable pub issue : World → IssueRequest → State → Reply × State
unfolding limited build store after_store push
issue w req s = limited w req s (allow w.clock req.host_id s.buckets)

-- HandleResult: an error of the store is only logged.
unfoldable pub handle_result :
    Conn → Outcome → List (CommandExecution CommandRequest) → List (CommandExecution CommandRequest)
handle_result c o rows = (Commands.complete c o rows).1
