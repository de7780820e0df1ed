-- ===== src/Tests/Commands.antt =====
-- Runs of the command broker and of its limit.
use praetor_server.Prelude.{◌+◌, ◌≤◌, pos, ◌≡◌, ◌≢◌, refl, true, none, some, [], ◌∷◌, arith, eq_iff}
use praetor_server.Sql.{exists_where}
use praetor_server.Dict.{lookup}
use praetor_server.Store.Commands
use praetor_server.Stream.Registry
use praetor_server.Command.RateLimit.{allow, window_duration}
use praetor_server.Command.RateLimit.Outcomes.{Calls, allowed}
use praetor_server.Command.RateLimit.Bounds.{window_bound, Within, run}
use praetor_server.Command.RateLimit.Isolation.{answers, alone, times_of, allow_refines}
use praetor_server.Command.RateLimit.Burst.{burst_allowed, two_bursts}
use praetor_server.Command.Broker.{World, IssueRequest, State, diagnostic, safe, issue, unknown}
use praetor_server.Command.Broker.Audit.{Issued, issue_cases, recorded}
use praetor_server.Command.Broker.Completed.{issue-completed}
use praetor_server.Store.Commands.{Outcome, get, completed, pending}
use praetor_server.Command.Broker.Completed.{IsAnswered}
use praetor_server.Store.Commands.{CommandExecution}
use praetor_server.Prelude.{List, ◌++◌, String, ℕ}
use praetor_server.Command.Broker.{CommandRequest, Tier, validated, handle_result, issue}
use praetor_server.Prelude.{pos, false}
use praetor_server.Tests.Data.{up_at}
use praetor_server.Result.{ok}
use praetor_server.Command.Broker.Ready.{IsReady}
use praetor_server.Api.{success}
use praetor_server.Api.Commands.{
  IssueCommandRequest, go, checked_request, handle_issue_command, place, issue_checked, answer,
}
use praetor_server.Api.Commands.Accepted.{IsPending, accepted_recorded}
use praetor_server.Tests.Data.{up_at, any_host}

abbrev pub number_of : Tier → ℕ
number_of safe = 0
number_of validated = 1

abbrev world : World
world = record {
  clock = 5;
  ulid = "c1";
  marshals = true;
  conn = up_at 5;
  hosts = any_host;
  sends = λ s. true;
  tier_number = number_of;
}

abbrev request : IssueRequest
request = record {
  host_id = "h1";
  tier = safe;
  reason = "look";
  issued_by = "ops";
  timeout = pos 30;
  command = diagnostic (record { check = 0; params = [] });
}

abbrev state : State
state = record { buckets = []; commands = []; registry = ("h1", 4) ∷ []; sent = [] }

issue_cases_example :
    Issued world request state (issue world request state).0 (issue world request state).1
    × ((issue world request state).1.registry ≡ state.registry)
    × ((issue world request state).1.buckets ≡ (allow 5 "h1" []).1)
issue_cases_example = issue_cases world request state

is_known : request.command ≢ unknown
is_known e = ground (arith, e)

ready : IsReady world request state 4
unfolding allow lookup exists_where Registry.get
ready = record {
  in_limit = refl;
  known = is_known;
  marshals = refl;
  up = refl;
  fresh = refl;
  host = refl;
  connected = refl;
  works = refl;
}

abbrev calls : Calls
calls = (7, "h1") ∷ (8, "h1") ∷ (9, "h2") ∷ []

within : Within 7 (7 + window_duration) calls
within =
    ((omega arith, omega arith), ((omega arith, omega arith), ((omega arith, omega arith), tt)))

window_bound_example : allowed "h1" calls (run ((1, "h1") ∷ []) []) ≤ 120
window_bound_example = window_bound "h1" ((1, "h1") ∷ []) calls 7 within

burst_allowed_example : allowed "h1" (two_bursts 59 59 1 "h1") [] ≡ 1 + 59 + (1 + 59)
burst_allowed_example = burst_allowed 59 59 1 "h1" (omega arith) (omega arith)

abbrev body : IssueCommandRequest
body = record {
  host_id = "h1";
  tier = pos 0;
  reason = "look";
  issued_by = "ops";
  timeout_seconds = pos 30;
  diagnostic = some (record { check = "DISK_USAGE"; params = [] });
  shell = none;
}

accepted : (handle_issue_command world (some body) state).0 ≡ success 202 "c1"
unfolding handle_issue_command checked_request place issue_checked issue allow lookup
    Commands.insert exists_where Registry.get answer
accepted = refl

fresh_id : world.ulid ≢ ""
fresh_id e = ground (arith, e, eq_iff "c1" "")

accepted_recorded_example :
    (req : IssueRequest) × (checked_request body ≡ go req)
    × ("c1" ≡ world.ulid)
    × ((handle_issue_command world (some body) state).1.commands ≡ recorded world req state)
    × ((r : CommandExecution CommandRequest) × (recorded world req state ≡ state.commands ++ r ∷ [])
        × IsPending world req r)
accepted_recorded_example = accepted_recorded world state fresh_id body "c1" accepted

abbrev outcome : Outcome
outcome = record {
  command_id = world.ulid;
  exit_code = pos 0;
  stdout = "ok";
  stderr = "warning";
  stdout_truncated = false;
  stderr_truncated = false;
  duration_ms = pos 12;
  error = "";
}

abbrev completed_rows : List (CommandExecution CommandRequest)
completed_rows = handle_result (up_at 8) outcome (issue world request state).1.commands

issue-completed_example :
    ((r : CommandExecution CommandRequest) × (get (up_at 9) "c1" completed_rows ≡ ok r)
      × IsAnswered world request 8 outcome r)
    × ((j : String) → "c1" ≢ j → get (up_at 9) j completed_rows ≡ get (up_at 9) j [])
issue-completed_example =
    issue-completed world request state 4 ready (up_at 9) refl (up_at 8) outcome refl refl

abbrev traffic : Calls
traffic = (100, "h1") ∷ (200, "h2") ∷ (300, "h1") ∷ []

allow_refines_example : answers "h1" traffic [] ≡ true ∷ true ∷ []
unfolding alone times_of
allow_refines_example = allow_refines "h1" traffic
