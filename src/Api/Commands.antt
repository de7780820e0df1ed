-- ===== src/Api/Commands.antt =====
-- internal/api/handler.go: the handlers of commands.
pub mod Accepted
use praetor_server.Prelude.{
  ℕ, suc, ℤ, pos, negsuc, nat_beq, String, Bool, true, false, Option, none, some, List, [], ◌∷◌,
  map, Bytes, length, if◌then◌else◌, ◌==◌, string_eq,
}
use praetor_server.Result.{Error, Result, ok, err, no_rows, Conn}
use praetor_server.Store.Commands
use praetor_server.Store.Commands.{CommandExecution}
use praetor_server.Command.Broker.{
  World, IssueRequest, State, Command, DiagnosticCommand, ShellCommand, diagnostic, shell, Tier,
  safe, validated, IssueError, issue,
}
use praetor_server.Api.{
  ApiError, Reply, failure, success, bad_json, host_id_required, reason_required, bad_tier,
  bad_check, binary_required, command_required, bad_limit, not_found, internal, broker_failed,
  limit_of,
}

-- diagnosticCheckMap: the position of a check stands for its enum value.
abbrev pub checks : List String
checks =
    "DISK_USAGE" ∷ "TOP_PROCESSES" ∷ "RECENT_AUTH_EVENTS" ∷ "JOURNALCTL_FOR_UNIT"
    ∷ "READ_CONFIG_FILE" ∷ []

abbrev next_place : Option ℕ → Option ℕ
next_place none = none
next_place (some n) = some (suc n)

unfoldable pub place : String → List String → Option ℕ
place s [] = none
place s (k ∷ ks) = let rest = place s ks in if s == k then some 0 else next_place rest

pub record DiagnosticCommandJson : Type 0 where
  pub check : String
  pub params : List (String × String)

pub record ShellCommandJson : Type 0 where
  pub binary : String
  pub args : List String

pub record IssueCommandRequest : Type 0 where
  pub host_id : String
  pub tier : ℤ
  pub reason : String
  pub issued_by : String
  pub timeout_seconds : ℤ
  pub diagnostic : Option DiagnosticCommandJson
  pub shell : Option ShellCommandJson

-- A step of the handler: a value, or the error that ends it.
pub data Step (A : Type 0) : Type 0 where
  go : A → Step A
  stop : ApiError → Step A

abbrev pub tier_of : ℤ → Step Tier
tier_of (pos n) =
    if nat_beq n 0 then go safe else if nat_beq n 1 then go validated else stop bad_tier
tier_of (negsuc n) = stop bad_tier

abbrev checked : List (String × String) → Option ℕ → Step Command
checked params none = stop bad_check
checked params (some n) = go (diagnostic (record { check = n; params = params }))

abbrev pub shell_command : Option ShellCommandJson → Step Command
shell_command none = stop command_required
shell_command (some s) =
    if s.binary == ""
    then stop binary_required
    else go (shell (record { binary = s.binary; args = s.args }))

-- a diagnostic command goes before a shell command
abbrev pub command_of : Option DiagnosticCommandJson → Option ShellCommandJson → Step Command
command_of (some d) s = checked d.params (place d.check checks)
command_of none s = shell_command s

abbrev pub request_for : IssueCommandRequest → Tier → Command → IssueRequest
request_for req tier command = record {
  host_id = req.host_id;
  tier = tier;
  reason = req.reason;
  issued_by = req.issued_by;
  timeout = req.timeout_seconds;
  command = command;
}

abbrev with_command : IssueCommandRequest → Tier → Step Command → Step IssueRequest
with_command req tier (stop e) = stop e
with_command req tier (go command) = go (request_for req tier command)

abbrev with_tier : IssueCommandRequest → Step Tier → Step IssueRequest
with_tier req (stop e) = stop e
with_tier req (go tier) = with_command req tier (command_of req.diagnostic req.shell)

-- the checks before the call of the broker
unfoldable pub checked_request : IssueCommandRequest → Step IssueRequest
checked_request req =
    if req.host_id == ""
    then stop host_id_required
    else if req.reason == ""
    then stop reason_required
    else with_tier req (tier_of req.tier)

-- An id means that the command is stored, so it is accepted even if it did not reach the agent.
unfoldable pub answer : String × Option IssueError → Reply String
answer (id, none) = success 202 id
answer (id, some e) = if id == "" then failure broker_failed else success 202 id

unfoldable pub issue_checked : World → Step IssueRequest → State → Reply String × State
issue_checked w (stop e) s = (failure e, s)
issue_checked w (go req) s = let o = issue w req s in (answer o.0, o.1)

-- The body of the reply is the id; its status is always "pending".
unfoldable pub handle_issue_command :
    World → Option IssueCommandRequest → State → Reply String × State
handle_issue_command w none s = (failure bad_json, s)
handle_issue_command w (some req) s = issue_checked w (checked_request req) s

-- every column but the request itself
pub record CommandResponse : Type 0 where
  pub id : String
  pub host_id : String
  pub status : String
  pub tier : ℕ
  pub reason : String
  pub issued_by : String
  pub issued_at : ℕ
  pub completed_at : Option ℕ
  pub exit_code : Option ℤ
  pub stdout : Option String
  pub stderr : Option String
  pub stdout_truncated : Bool
  pub stderr_truncated : Bool
  pub duration_ms : Option ℤ
  pub error : Option String

module _ {R : Type 0} where
  abbrev pub to_command_response : CommandExecution R → CommandResponse
  to_command_response c = record {
    id = c.id;
    host_id = c.host_id;
    status = c.status;
    tier = c.tier;
    reason = c.reason;
    issued_by = c.issued_by;
    issued_at = c.issued_at;
    completed_at = c.completed_at;
    exit_code = c.exit_code;
    stdout = c.stdout;
    stderr = c.stderr;
    stdout_truncated = c.stdout_truncated;
    stderr_truncated = c.stderr_truncated;
    duration_ms = c.duration_ms;
    error = c.error;
  }

  abbrev found : Result (CommandExecution R) → Reply CommandResponse
  found (ok c) = success 200 (to_command_response c)
  found (err no_rows) = failure not_found
  found (err _) = failure internal

  unfoldable pub handle_get_command :
      Conn → String → List (CommandExecution R) → Reply CommandResponse
  handle_get_command c id rows = found (Commands.get c id rows)

  abbrev listed : Result (List (CommandExecution R)) → Reply (List CommandResponse)
  listed (ok cs) = success 200 (map to_command_response cs)
  listed (err e) = failure internal

  abbrev limited :
      Conn → String → Option ℕ → List (CommandExecution R) → Reply (List CommandResponse)
  limited c host_id none rows = failure bad_limit
  limited c host_id (some limit) rows = listed (Commands.list_by_host c host_id limit rows)

  -- `limit` is the text of the query parameter, "" without one.
  unfoldable pub handle_list_commands :
      Conn → String → Bytes → List (CommandExecution R) → Reply (List CommandResponse)
  handle_list_commands c host_id limit rows =
      if host_id == ""
      then failure host_id_required
      else limited c host_id (limit_of 20 100 limit) rows
