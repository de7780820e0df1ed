-- ===== src/Loki.antt =====
-- internal/storage/loki/writer.go: a batch of log entries as Loki streams. Go ranges over the groups
-- in any order; here they stand in the order in which their sources first come.
pub mod Grouping
use praetor_server.Http.{Client, WriteError, marshal_failed, post, base_url}
use praetor_server.Prelude.{Bool, Bytes, codes, if◌then◌else◌, ◌++◌}
use praetor_server.Prelude.{
  ℕ, String, Option, none, some, List, [], ◌∷◌, ◌++◌, map, if◌then◌else◌, ◌==◌, string_eq,
}
use praetor_server.Dict.{Dict, lookup, insert}

pub data LogSeverity : Type 0 where
  critical error warning info debug trace unspecified : LogSeverity

-- severityLabel
abbrev pub severity_label : LogSeverity → String
severity_label critical = "critical"
severity_label error = "error"
severity_label warning = "warning"
severity_label info = "info"
severity_label debug = "debug"
severity_label trace = "trace"
severity_label unspecified = "unknown"

pub record LogEntry : Type 0 where
  pub source : String
  pub severity : LogSeverity
  pub timestamp : Option ℕ
  pub message : String

abbrev pub source_of : LogEntry → String
source_of e = if e.source == "" then "unknown" else e.source

abbrev pub entries_or_none : Option (List LogEntry) → List LogEntry
entries_or_none none = []
entries_or_none (some es) = es

-- bySource[src] = append(bySource[src], e)
abbrev pub add_entry : LogEntry → Dict (List LogEntry) → Dict (List LogEntry)
add_entry e m = insert (source_of e) (entries_or_none (lookup (source_of e) m) ++ e ∷ []) m

unfoldable pub group_from : List LogEntry → Dict (List LogEntry) → Dict (List LogEntry)
group_from [] m = m
group_from (e ∷ es) m = group_from es (add_entry e m)

unfoldable pub by_source : List LogEntry → Dict (List LogEntry)
by_source es = group_from es []

-- The labels of a stream and its values; a time is in nanoseconds, as the number that Loki gets as a
-- text.
pub record LokiStream : Type 0 where
  pub host_id : String
  pub source : String
  pub severity : String
  pub values : List (ℕ × String)

abbrev time_of : ℕ → Option ℕ → ℕ
time_of now none = now
time_of now (some t) = t

-- One reading of the clock stands for all of a batch.
abbrev pub value_of : ℕ → LogEntry → ℕ × String
value_of now e = (time_of now e.timestamp, e.message)

-- The label is that of the first entry. No group is empty.
abbrev first_label : List LogEntry → String
first_label [] = ""
first_label (e ∷ es) = severity_label e.severity

abbrev pub stream_of : ℕ → String → String × List LogEntry → LokiStream
stream_of now host_id (source, entries) = record {
  host_id = host_id;
  source = source;
  severity = first_label entries;
  values = map (value_of now) entries;
}

-- The streams of the request that Write posts, and `none` when it posts nothing.
unfoldable pub push_request : ℕ → String → List LogEntry → Option (List LokiStream)
push_request now host_id [] = none
push_request now host_id (e ∷ es) = some (map (stream_of now host_id) (by_source (e ∷ es)))

-- Write: an empty batch posts nothing. `marshals` says whether json.Marshal works.
abbrev pub write_streams :
    Client
    → Bytes
    → Bool
    → Option (List LokiStream)
    → Option WriteError × Option (Bytes × List LokiStream)
write_streams client base marshals none = (none, none)
write_streams client base marshals (some streams) =
    if marshals
    then post client (base ++ codes "/loki/api/v1/push") streams
    else (some marshal_failed, none)

unfoldable pub write :
    Client
    → Bytes
    → Bool
    → ℕ
    → String
    → List LogEntry
    → Option WriteError × Option (Bytes × List LokiStream)
write client url marshals now host_id entries =
    write_streams client (base_url url) marshals (push_request now host_id entries)
