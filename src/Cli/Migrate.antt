-- ===== src/Cli/Migrate.antt =====
-- cmd/praetor-server/migrate.go: `migrate`, which takes its direction before or behind the flags.
pub mod Arguments
pub mod Directions
use praetor_server.Prelude.{
  ℕ, zero, suc, ◌+◌, String, Bool, false, ◌||◌, Option, none, some, List, [], ◌∷◌, ◌++◌, length,
  nat_beq, if◌then◌else◌, ◌==◌, string_eq,
}
use Prim.Native.Char.{code}
use praetor_server.Database.{Goose, dialect_error}
use praetor_server.Cli.{
  Run, finished, exits, Env, opened, unknown_subcommand, wrong_flags, help, migration_error,
  migration_failed,
}
use praetor_server.Cli.Flags
use praetor_server.Cli.Flags.{
  config_flags, text, Values, Parsed, parsed, wrong_usage, parse, text_of, default_config_path,
}

-- flagArgs and posArgs
pub record Split : Type 0 where
  pub flag_args : List String
  pub pos_args : List String

-- args[i], for an index below the length
unfoldable pub at : List String → ℕ → Option String
at [] i = none
at (a ∷ args) zero = some a
at (a ∷ args) (suc i) = at args i

abbrev pub is_config : String → Bool
is_config a = a == "--config" || a == "-config"

-- len(a) > 1 && a[0] == '-'
abbrev pub is_flag : String → Bool
is_flag String.[] = false
is_flag (String.◌∷◌ c s) = if s == "" then false else nat_beq (code c) b'-'

abbrev add_flags : Split → List String → Split
add_flags s more = record s { flag_args = s.flag_args ++ more }

abbrev add_operand : Split → String → Split
add_operand s a = record s { pos_args = s.pos_args ++ a ∷ [] }

-- `--config` takes the argument behind it, if there is one
abbrev config_round : (ℕ → Split → Option Split) → ℕ → Split → String → Option String → Option Split
config_round next i s a none = next (suc i) (add_flags s (a ∷ []))
config_round next i s a (some b) = next (suc (suc i)) (add_flags s (a ∷ b ∷ []))

-- The body of the loop at index i, where `here` and `following` are args[i] and args[i+1].
abbrev round : (ℕ → Split → Option Split) → ℕ → Split → Option String → Option String → Option Split
round next i s none following = some s
round next i s (some a) following =
    if is_config a
    then config_round next i s a following
    else if is_flag a
    then next (suc i) (add_flags s (a ∷ []))
    else next (suc i) (add_operand s a)

-- The loop over the index, in at most so many rounds; `none` if they are too few.
unfoldable pub split_loop : ℕ → List String → ℕ → Split → Option Split
split_loop zero args i s = none
split_loop (suc rounds) args i s =
    let next = split_loop rounds args in round next i s (at args i) (at args (suc i))

unfoldable pub split_args : List String → Option Split
split_args args = split_loop (suc (length args)) args 0 (record { flag_args = []; pos_args = [] })

-- posArgs[0], or "up"
abbrev pub direction_of : List String → String
direction_of [] = "up"
direction_of (d ∷ ds) = d

module _ {S : Type 0} where
  abbrev pub outcome : Bool × S → Run (Unit {0}) × S
  outcome (worked, s) = (if worked then finished tt else exits migration_failed, s)

  -- the switch on the direction
  abbrev pub run_direction : Goose S → String → S → Run (Unit {0}) × S
  run_direction g direction s =
      if direction == "up"
      then outcome (g.up s)
      else if direction == "down"
      then outcome (g.down s)
      else if direction == "status"
      then outcome (g.status s, s)
      else if direction == "version"
      then outcome (g.version s, s)
      else (exits unknown_subcommand, s)

  abbrev pub with_database : Goose S → String → Run (Unit {0}) → S → Run (Unit {0}) × S
  with_database g direction (exits e) s = (exits e, s)
  with_database g direction (finished u) s =
      if g.set_dialect
      then run_direction g direction s
      else (exits (migration_error dialect_error), s)

  abbrev pub with_flags : Env → Goose S → List String → Parsed → S → Run (Unit {0}) × S
  with_flags e g pos_args wrong_usage s = (exits wrong_flags, s)
  with_flags e g pos_args Flags.help s = (exits help, s)
  with_flags e g pos_args (parsed v rest) s =
      with_database g (direction_of pos_args) (opened e (text_of "config" v)) s

  -- `none` does not happen: the loop ends in its rounds
  abbrev pub with_split : Env → Goose S → Option Split → S → Run (Unit {0}) × S
  with_split e g none s = (exits wrong_flags, s)
  with_split e g (some a) s =
      with_flags e g a.pos_args (parse e.parse_duration a.flag_args config_flags) s

  -- runMigrate
  unfoldable pub run_migrate : Env → Goose S → List String → S → Run (Unit {0}) × S
  run_migrate e g args s = with_split e g (split_args args) s
