-- ===== src/Tests/Stores.antt =====
-- Runs of the other stores, of the configuration file and of the log writer.
use praetor_server.Prelude.{pos, String, ◌≡◌, refl, false, none, List, [], ◌∷◌, string_eq}
use praetor_server.Result.{ok, Conn}
use praetor_server.Sql.{exists_where}
use praetor_server.Store.Configs.{set_field}
use praetor_server.Store.Identities.{AgentIdentity, Identities, revoke}
use praetor_server.Store.Identities.Validity.{Op, inserts, revokes}
use praetor_server.Store.Commands.{CommandExecution, Outcome}
use praetor_server.Store.SecurityEvents.{SecurityEvents}
use praetor_server.Loki.{LogEntry, info, by_source, entries_or_none}
use praetor_server.Loki.Grouping.{by_source_exact, of_source}
use praetor_server.Dict.{lookup}
use praetor_server.Tests.Data.{up_at, any_host}

set_ok : (set_field (up_at 4) any_host "h1" "heartbeat_interval_seconds" (pos 60) []).0 ≡ ok tt
unfolding set_field exists_where
set_ok = refl

abbrev identity : AgentIdentity
identity = record {
  id = 1;
  host_id = "h1";
  cert_pem = "pem";
  cert_fingerprint = "fp";
  issued_at = 1;
  expires_at = 99;
  revoked_at = none;
  revoked_reason = none;
}

abbrev empty : Identities
empty = record { rows = []; next_id = 1 }

abbrev writes : List (Conn × Op)
writes =
    (up_at 1, inserts any_host identity)
    ∷ (up_at 2, revokes 1 "lost")
    ∷ (up_at 3, inserts any_host identity)
    ∷ []

abbrev one : Identities
one = record { rows = identity ∷ []; next_id = 2 }

revoked_ok : (revoke (up_at 5) 1 "lost" one).0 ≡ ok tt
unfolding revoke exists_where
revoked_ok = refl

abbrev command : CommandExecution String
command = record {
  id = "c1";
  host_id = "h1";
  tier = 0;
  command_json = "{}";
  reason = "look";
  issued_by = "ops";
  issued_at = 3;
  completed_at = none;
  exit_code = none;
  stdout = none;
  stderr = none;
  stdout_truncated = false;
  stderr_truncated = false;
  duration_ms = none;
  error = none;
  status = "pending";
}

abbrev outcome : Outcome
outcome = record {
  command_id = "c1";
  exit_code = pos 0;
  stdout = "fine";
  stderr = "";
  stdout_truncated = false;
  stderr_truncated = false;
  duration_ms = pos 12;
  error = "";
}

abbrev events : SecurityEvents
events = record {
  rows =
      record {
        id = 1;
        host_id = "h1";
        occurred_at = 5;
        received_at = 6;
        type = "auth";
        source = "sshd";
        content = none;
        raw = "";
      }
      ∷ [];
  next_id = 2;
}

abbrev entry : LogEntry
entry = record { source = "sshd"; severity = info; timestamp = none; message = "hello" }

by_source_exact_example :
    entries_or_none (lookup "sshd" (by_source (entry ∷ entry ∷ [])))
    ≡ of_source "sshd" (entry ∷ entry ∷ [])
by_source_exact_example = by_source_exact "sshd" (entry ∷ entry ∷ [])
