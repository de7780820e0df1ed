-- ===== src/Cli/Tokens/Exits.antt =====
-- What `token` leaves behind when it exits with an error.
use praetor_server.Result.{Result-cases}
use praetor_server.Cli.Flags
use praetor_server.Cli.{Run-cases}
use praetor_server.Prelude.{
  ◌==◌, String, ◌≡◌, List, [], ◌∷◌, arith, Bool-cases, Option-cases, string_eq, inl, inr,
}
use praetor_server.Result.{err, Conn}
use praetor_server.Sql.{exists_where, update-absent}
use praetor_server.Token.{generate}
use praetor_server.Store.Tokens.{Tokens, EnrollmentToken, revocable, insert, revoke, revoke_at}
use praetor_server.Cli.{CliError, exits, opened, Error}
use praetor_server.Cli.Flags.{
  config_flags, parse, Parsed, parsed, wrong_usage, text_of, duration_of,
}
use praetor_server.Cli.Tokens.{
  World, run_token, run_token_issue, run_token_revoke, Issued, revoked_or, issue_parsed,
  revoke_parsed, inserted, exceeds_max, issue_flags, add_ttl, row_of,
}

insert_error :
    (c : Conn) (t : EnrollmentToken) (rows : Tokens) (e : Error)
    → (insert c t rows).0 ≡ err e
    → (insert c t rows).1 ≡ rows
unfolding insert
insert_error c t rows e h = ground (arith, h)

revoke_error :
    (c : Conn) (id : String) (rows : Tokens) (e : Error)
    → (revoke c id rows).0 ≡ err e
    → (revoke c id rows).1 ≡ rows
unfolding revoke
revoke_error c id rows e h = elim (Bool-cases (exists_where (revocable id) rows)) [
  | inl y ↦ ground (arith, y, h)
  | inr n ↦ ground (arith, n, h, update-absent (revocable id) (revoke_at c.now) rows n)
]

module _ (w : World) (rows : Tokens) (e : CliError) (after : Tokens) where
  inserted_exits :
      (i : Issued) (t : EnrollmentToken)
      → inserted i (insert w.conn t rows) ≡ (exits e, after)
      → after ≡ rows
  inserted_exits i t h = elim (Result-cases (insert w.conn t rows).0) [
    | inl (x, bad) ↦ ground (arith, bad, h, insert_error w.conn t rows x bad)
    | inr (x, good) ↦ absurd (ground (arith, good, h))
  ]

  revoked_exits :
      (id : String) → revoked_or id (revoke w.conn id rows) ≡ (exits e, after) → after ≡ rows
  revoked_exits id h = elim (Result-cases (revoke w.conn id rows).0) [
    | inl (x, bad) ↦ ground (arith, bad, h, revoke_error w.conn id rows x bad)
    | inr (x, good) ↦ absurd (ground (arith, good, h))
  ]

  issue_exits : (p : Parsed) → issue_parsed w p rows ≡ (exits e, after) → after ≡ rows
  issue_exits wrong_usage h = ground (arith, h)
  issue_exits Flags.help h = ground (arith, h)
  issue_exits (parsed v rest) h = elim (Bool-cases (text_of "label" v == "")) [
    | inl y ↦ ground (arith, y, h)
    | inr n ↦ elim (Bool-cases (exceeds_max (duration_of "ttl" v))) [
      | inl y ↦ ground (arith, n, y, h)
      | inr m ↦ elim (Run-cases (opened w.env (text_of "config" v))) [
        | inl (x, bad) ↦ ground (arith, n, m, bad, h)
        | inr (u, good) ↦ elim (Option-cases (generate w.hash w.random w.ulid)) [
          | inl z ↦ ground (arith, n, m, good, z, h)
          | inr (tok, t) ↦
              let expires_at = add_ttl w.clock (duration_of "ttl" v) in
              inserted_exits
                (record {
                  plain = tok.plain;
                  label = text_of "label" v;
                  expires_at = expires_at;
                  org = text_of "org" v;
                })
                (row_of tok (text_of "label" v) (text_of "org" v) w.clock expires_at)
                (ground (arith, n, m, good, t, h))
        ]
      ]
    ]
  ]

  revoke_exits : (p : Parsed) → revoke_parsed w p rows ≡ (exits e, after) → after ≡ rows
  revoke_exits wrong_usage h = ground (arith, h)
  revoke_exits Flags.help h = ground (arith, h)
  revoke_exits (parsed v []) h = ground (arith, h)
  revoke_exits (parsed v (id ∷ rest)) h = elim (Run-cases (opened w.env (text_of "config" v))) [
    | inl (x, bad) ↦ ground (arith, bad, h)
    | inr (u, good) ↦ revoked_exits id (ground (arith, good, h))
  ]

-- When a `token` subcommand ends with an error, the table is as it was.
pub run_token_exits :
    (w : World) (args : List String) (rows : Tokens) (e : CliError) (after : Tokens)
    → run_token w args rows ≡ (exits e, after)
    → after ≡ rows
unfolding run_token run_token_issue run_token_revoke
run_token_exits w [] rows e after h = ground (arith, h)
run_token_exits w (name ∷ args) rows e after h = elim (Bool-cases (name == "issue")) [
  | inl y ↦
      issue_exits w rows e after (parse w.env.parse_duration args issue_flags)
        (ground (arith, y, h))
  | inr n ↦ elim (Bool-cases (name == "list")) [
    | inl y ↦ ground (arith, n, y, h)
    | inr m ↦ elim (Bool-cases (name == "revoke")) [
      | inl y ↦
          revoke_exits w rows e after (parse w.env.parse_duration args config_flags)
            (ground (arith, n, m, y, h))
      | inr k ↦ ground (arith, n, m, k, h)
    ]
  ]
]
