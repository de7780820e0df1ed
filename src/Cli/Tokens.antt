-- ===== src/Cli/Tokens.antt =====
-- cmd/praetor-server/token.go: `token issue`, `token list` and `token revoke`.
pub mod Listing
pub mod Issuing
pub mod Exits
use praetor_server.Prelude.{
  or_empty, ℕ, String, Bool, true, false, ◌&&◌, Option, none, some, List, [], ◌∷◌, map, ltb, take,
  if◌then◌else◌, ◌==◌, is_none, string_eq, Bytes, pos,
}
use praetor_server.Token.{Token, generate}
use praetor_server.Api.Tokens.{default_ttl, exceeds_max, add_ttl}
use praetor_server.Result.{Result, ok, err, Conn, exec}
use praetor_server.Sql.{select, order_by}
use praetor_server.Store.Tokens.{EnrollmentToken, Tokens, newer}
use praetor_server.Store.Tokens as Store
use praetor_server.Cli.Flags
use praetor_server.Cli.{
  with_parsed, after_open, Run, finished, exits, Env, opened, wrong_flags, help, store_error, ℤ,
  label_required, usage, unknown_subcommand, not_generated, ttl_too_long,
}
use praetor_server.Cli.Flags.{
  config_flags, text, switch, Values, Parsed, parsed, wrong_usage, parse, text_of, switch_of,
  default_config_path, duration_of, duration,
}

-- One line of the table that `token list` prints.
pub data Status : Type 0 where
  active used expired revoked : Status

pub record Line : Type 0 where
  pub id : String
  pub label : String
  pub created_at : ℕ
  pub expires_at : ℕ
  pub status : Status

-- The switch on the columns; `clock` is the reading of time.Now. expires_at is never NULL here.
abbrev pub status_of : ℕ → EnrollmentToken → Status
status_of clock r =
    if is_none r.revoked_at
    then (if is_none r.used_at then (if ltb r.expires_at clock then expired else active) else used)
    else revoked

-- the columns of a row that is scanned
abbrev pub line_of : ℕ → EnrollmentToken → Line
line_of clock r = record {
  id = r.id;
  label = or_empty r.label;
  created_at = r.created_at;
  expires_at = r.expires_at;
  status = status_of clock r;
}

-- the WHERE clause of the query
abbrev pub shown : ℕ → String → Bool → Bool → EnrollmentToken → Bool
shown now org include_used include_expired r =
    r.org_id == org
    && (if include_used then true else is_none r.used_at)
    && (if include_expired then true else ltb now r.expires_at)
    && is_none r.revoked_at

-- How the rows of an answer reach the loop: the number of them after which Next returns false for an
-- error of the connection, `none` if there is no such error, and the rows that Scan accepts.
pub record Reading : Type 0 where
  pub fails_after : Option ℕ
  pub scans : EnrollmentToken → Bool

abbrev pub up_to : Option ℕ → Tokens → Tokens
up_to none rows = rows
up_to (some n) rows = take n rows

-- The loop: it passes over a row that Scan refuses, and rows.Err() is never asked for.
abbrev pub printed : Reading → ℕ → Result Tokens → Run (List Line)
printed g clock (err e) = exits (store_error e)
printed g clock (ok rows) =
    finished (map (line_of clock) (select g.scans (up_to g.fails_after rows)))

-- the query and the loop over its rows
unfoldable pub query_tokens : Conn → Reading → ℕ → String → Bool → Bool → Tokens → Run (List Line)
query_tokens c g clock org include_used include_expired rows =
    printed g clock
      (exec c rows
        (ok (order_by newer (select (shown c.now org include_used include_expired) rows)), rows)).0

abbrev list_flags : Values
list_flags =
    ("config", text default_config_path)
    ∷ ("org", text "default")
    ∷ ("include-used", switch false)
    ∷ ("include-expired", switch false)
    ∷ []

-- runTokenList
unfoldable pub run_token_list : Env → Conn → Reading → ℕ → List String → Tokens → Run (List Line)
run_token_list e c g clock args rows =
    with_parsed (parse e.parse_duration args list_flags) (λ v rest.
      after_open (opened e (text_of "config" v)) (
        query_tokens c g clock (text_of "org" v) (switch_of "include-used" v)
          (switch_of "include-expired" v) rows))

-- What the subcommands of `token` find beside their environment: the answers of the database, how the
-- rows of `list` arrive, the clock, and what Generate has for a new token.
pub record World : Type 0 where
  pub env : Env
  pub conn : Conn
  pub reading : Reading
  pub clock : ℕ
  pub hash : Bytes → String
  pub random : Option Bytes
  pub ulid : String

pub record Issued : Type 0 where
  pub plain : Bytes
  pub label : String
  pub expires_at : ℕ
  pub org : String

pub data Output : Type 0 where
  issued : Issued → Output
  listed : List Line → Output
  revoked_id : String → Output

abbrev pub row_of : Token → String → String → ℕ → ℕ → EnrollmentToken
row_of tok label org now expires_at = record {
  id = tok.id;
  token_hash = tok.hash;
  label = some label;
  org_id = org;
  created_by = some "cli";
  created_at = now;
  expires_at = expires_at;
  used_at = none;
  used_by_host_id = none;
  revoked_at = none;
}

abbrev pub inserted : Issued → Result EnrollmentToken × Tokens → Run Output × Tokens
inserted i (err e, rows) = (exits (store_error e), rows)
inserted i (ok t, rows) = (finished (issued i), rows)

abbrev pub with_token : World → String → ℤ → String → Option Token → Tokens → Run Output × Tokens
with_token w label ttl org none rows = (exits not_generated, rows)
with_token w label ttl org (some tok) rows =
    let expires_at = add_ttl w.clock ttl in
    inserted (record { plain = tok.plain; label = label; expires_at = expires_at; org = org })
      (Store.insert w.conn (row_of tok label org w.clock expires_at) rows)

abbrev pub issue_opened : World → Values → Run (Unit {0}) → Tokens → Run Output × Tokens
issue_opened w v (exits e) rows = (exits e, rows)
issue_opened w v (finished u) rows =
    with_token w (text_of "label" v) (duration_of "ttl" v) (text_of "org" v)
      (generate w.hash w.random w.ulid) rows

abbrev pub issue_flags : Values
issue_flags =
    ("config", text default_config_path)
    ∷ ("label", text "")
    ∷ ("ttl", duration (pos default_ttl))
    ∷ ("org", text "default")
    ∷ []

abbrev pub issue_parsed : World → Parsed → Tokens → Run Output × Tokens
issue_parsed w wrong_usage rows = (exits wrong_flags, rows)
issue_parsed w Flags.help rows = (exits help, rows)
issue_parsed w (parsed v rest) rows =
    if text_of "label" v == ""
    then (exits label_required, rows)
    else if exceeds_max (duration_of "ttl" v)
    then (exits ttl_too_long, rows)
    else issue_opened w v (opened w.env (text_of "config" v)) rows

-- runTokenIssue
unfoldable pub run_token_issue : World → List String → Tokens → Run Output × Tokens
run_token_issue w args rows = issue_parsed w (parse w.env.parse_duration args issue_flags) rows

abbrev pub revoked_or : String → Result (Unit {0}) × Tokens → Run Output × Tokens
revoked_or id (err e, rows) = (exits (store_error e), rows)
revoked_or id (ok u, rows) = (finished (revoked_id id), rows)

abbrev revoke_opened : World → String → Run (Unit {0}) → Tokens → Run Output × Tokens
revoke_opened w id (exits e) rows = (exits e, rows)
revoke_opened w id (finished u) rows = revoked_or id (Store.revoke w.conn id rows)

abbrev pub revoke_parsed : World → Parsed → Tokens → Run Output × Tokens
revoke_parsed w wrong_usage rows = (exits wrong_flags, rows)
revoke_parsed w Flags.help rows = (exits help, rows)
revoke_parsed w (parsed v []) rows = (exits usage, rows)
revoke_parsed w (parsed v (id ∷ rest)) rows =
    revoke_opened w id (opened w.env (text_of "config" v)) rows

-- runTokenRevoke
unfoldable pub run_token_revoke : World → List String → Tokens → Run Output × Tokens
run_token_revoke w args rows = revoke_parsed w (parse w.env.parse_duration args config_flags) rows

abbrev listed_or : Run (List Line) → Run Output
listed_or (exits e) = exits e
listed_or (finished lines) = finished (listed lines)

-- runToken
unfoldable pub run_token : World → List String → Tokens → Run Output × Tokens
run_token w [] rows = (exits usage, rows)
run_token w (name ∷ args) rows =
    if name == "issue"
    then run_token_issue w args rows
    else if name == "list"
    then (listed_or (run_token_list w.env w.conn w.reading w.clock args rows), rows)
    else if name == "revoke"
    then run_token_revoke w args rows
    else (exits unknown_subcommand, rows)
