-- ===== src/Tests/Cli.antt =====
-- Runs of the subcommands.
use praetor_server.Api.Tokens.{default_ttl}
use praetor_server.Prelude.{
  ◌+◌, ◌<◌, ◌≤◌, pos, String, ◌≡◌, ◌≢◌, refl, true, false, none, some, List, [], ◌∷◌, Bytes, eq_iff,
  arith, All, In,
}
use praetor_server.Result.{ok, Conn, no_rows}
use praetor_server.Sql.{exists_where, select, order_by, update_where}
use praetor_server.Config.{Config, load, checked}
use praetor_server.Database.{PoolConfig, connect}
use praetor_server.Token.{parse_and_validate}
use praetor_server.Store.Tokens.{EnrollmentToken, Tokens, has_id, claim, list, revoke}
use praetor_server.Dict.{lookup}
use praetor_server.Cli.{Env, finished, exits, opened, store_error}
use praetor_server.Cli.Flags.{default_config_path, word, operand, cut, parse, text_of}
use praetor_server.Cli.Tokens.{
  Reading, World, Issued, issued, Line, line_of, active, run_token, run_token_issue,
  run_token_revoke, query_tokens,
}
use praetor_server.Cli.Tokens.Issuing.{issue_claimable}
use praetor_server.Cli.Tokens.Exits.{run_token_exits}
use praetor_server.Cli.Tokens.Listing.{IsLine, AreLines, query_tokens-list}
use praetor_server.Cli.Configs as ConfigCli
use praetor_server.Cli.Configs.{run_config_set}
use praetor_server.Cli.Configs.Operands.{run_config_set-operands}
use praetor_server.Cli.Migrate.{split_args}
use praetor_server.Cli.Migrate.Arguments.{partition, split_args-partition}
use praetor_server.Tests.Data.{up_at, a_token, any_host}

abbrev settings : Config
settings = record {
  grpc_listen = "";
  http_listen = "";
  postgres_dsn = "postgres://";
  victoriametrics_url = "http://vm";
  loki_url = "http://loki";
  data_dir = "";
  grpc_server_dns_names = [];
  api_key = "key";
  org_id = "";
  alert_webhook_url = "";
}

abbrev pool_config : PoolConfig
pool_config = record {
  dsn = "postgres://";
  max_conns = 4;
  max_conn_lifetime = 0;
  health_check_period = 0;
}

abbrev pub env : Env
env = record {
  files = λ path. some settings;
  parse_duration = λ s. some (pos 5);
  pgx = record { parse_config = λ dsn. some pool_config; new = λ cfg. true; ping = λ cfg. true };
}

opened_ok : opened env default_config_path ≡ finished tt
unfolding opened load checked connect
opened_ok = refl

abbrev random : Bytes
random =
    1 ∷ 2 ∷ 3 ∷ 4 ∷ 5 ∷ 6 ∷ 7 ∷ 8 ∷ 9 ∷ 10 ∷ 11 ∷ 12 ∷ 13 ∷ 14 ∷ 15 ∷ 16 ∷ 17 ∷ 18 ∷ 19 ∷ 20 ∷ 21
    ∷ 22 ∷ 23 ∷ 24 ∷ 25 ∷ []

abbrev constant : Bytes → String
constant b = "hash"

-- every row arrives and scans
abbrev whole : Reading
whole = record { fails_after = none; scans = λ r. true }

abbrev world : World
world = record {
  env = env;
  conn = up_at 3;
  reading = whole;
  clock = 3;
  hash = constant;
  random = some random;
  ulid = "t9";
}

abbrev label : String
label = "rack"

labelled : label ≢ ""
labelled e = ground (arith, e, eq_iff "rack" "")

unused : exists_where (has_id "t9") (a_token ∷ []) ≡ false
unfolding exists_where
unused = refl

abbrev issue : List String
issue = "--label" ∷ "rack" ∷ []

issue_claimable_example :
    (i : Issued) × ((run_token_issue world issue (a_token ∷ [])).0 ≡ finished (issued i))
    × (parse_and_validate i.plain ≡ none)
    × ((c : Conn)
        → c.up ≡ true
        → c.now < 3 + default_ttl
        → (a : EnrollmentToken) × ((claim c "hash" (run_token_issue world issue (a_token ∷ [])).1).0
            ≡ ok a))
issue_claimable_example =
    issue_claimable world label random (a_token ∷ []) labelled opened_ok refl refl refl unused

-- a token that is not there is not revoked
abbrev revoke_args : List String
revoke_args = "revoke" ∷ "t7" ∷ []

revoke_fails :
    run_token world revoke_args (a_token ∷ []) ≡ (exits (store_error no_rows), a_token ∷ [])
unfolding run_token run_token_revoke parse word cut text_of lookup opened load checked connect
    revoke exists_where update_where
revoke_fails = refl

run_token_exits_example : (a_token ∷ []) ≡ (a_token ∷ [])
run_token_exits_example =
    run_token_exits world revoke_args (a_token ∷ []) (store_error no_rows) (a_token ∷ [])
      revoke_fails

abbrev lines : List Line
lines = line_of 5 a_token ∷ []

lines_ok : query_tokens (up_at 5) whole 5 "acme" false false (a_token ∷ []) ≡ finished lines
unfolding query_tokens select order_by
lines_ok = refl

query_tokens-list_example :
    (out : Tokens) × (list (up_at 5) "acme" false false (a_token ∷ []) ≡ ok out)
    × All (λ l. (r : EnrollmentToken) × In r out × IsLine 5 r l) lines
    × (whole.fails_after ≡ none
        → ((r : EnrollmentToken) → whole.scans r ≡ true)
        → AreLines 5 out lines)
    × (false ≡ false → 5 ≤ 5 → All (λ l. l.status ≡ active) lines)
query_tokens-list_example =
    query_tokens-list (up_at 5) whole 5 "acme" false (a_token ∷ []) lines lines_ok

abbrev config_world : ConfigCli.World
config_world = record { env = env; conn = up_at 4; hosts = any_host }

host_operand : word "h1" ≡ operand
unfolding word
host_operand = refl

run_config_set-operands_example :
    run_config_set config_world
      ("h1" ∷ "heartbeat_interval_seconds=60" ∷ "--config" ∷ "examples/server.yaml" ∷ [])
      []
    ≡ run_config_set config_world ("h1" ∷ "heartbeat_interval_seconds=60" ∷ []) []
run_config_set-operands_example =
    run_config_set-operands config_world "h1" "heartbeat_interval_seconds=60"
      ("--config" ∷ "examples/server.yaml" ∷ []) [] host_operand

split_args-partition_example :
    split_args ("up" ∷ "--config" ∷ "server.yaml" ∷ [])
    ≡ some (partition ("up" ∷ "--config" ∷ "server.yaml" ∷ []))
split_args-partition_example = split_args-partition ("up" ∷ "--config" ∷ "server.yaml" ∷ [])
