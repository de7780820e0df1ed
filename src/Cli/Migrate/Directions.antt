-- ===== src/Cli/Migrate/Directions.antt =====
-- What `migrate` does to the schema of the database.
use praetor_server.Prelude.{
  String, ◌≡◌, ◌⊎◌, refl, ◌∙◌, false, Option, ℤ, List, [], ◌∷◌, arith, Bool-cases, inl, inr, eq_iff,
  string_eq, ◌==◌,
}
use praetor_server.Dict
use praetor_server.Dict.{lookup}
use praetor_server.Database.{Goose}
use praetor_server.Cli.{Run, Env, opened, finished, exits}
use praetor_server.Cli.Flags.{
  config_flags, text, parse, Parsed, parsed, wrong_usage, text_of, word, cut,
}
use praetor_server.Cli.Flags
use praetor_server.Cli.Migrate.{
  is_config, is_flag, direction_of, with_flags, with_database, run_migrate, run_direction,
}
use praetor_server.Cli.Migrate.Arguments.{partition, split_args-partition}

parse_config :
    (d : String → Option ℤ) (path : String)
    → parse d ("--config" ∷ path ∷ []) config_flags ≡ parsed (("config", text path) ∷ []) []
unfolding parse word cut lookup Dict.insert
parse_config d path = refl

module _ {S : Type 0} (e : Env) (g : Goose S) where
  run-partition :
      (args : List String) (s : S)
      → run_migrate e g args s
        ≡ with_flags e g
            (partition args).pos_args
            (parse e.parse_duration (partition args).flag_args config_flags)
            s
  unfolding run_migrate
  run-partition args s = rw (split_args-partition args) refl

  -- A direction that is no flag is taken before `--config` and behind it: both ways `migrate` reads
  -- the file that is named and runs the direction.
  pub run_migrate_order :
      (direction path : String) (s : S)
      → is_config direction ≡ false
      → is_flag direction ≡ false
      → (run_migrate e g (direction ∷ "--config" ∷ path ∷ []) s
          ≡ with_database g direction (opened e path) s)
        × (run_migrate e g ("--config" ∷ path ∷ direction ∷ []) s
            ≡ with_database g direction (opened e path) s)
  unfolding partition text_of lookup
  run_migrate_order direction path s c f = (
    run-partition (direction ∷ "--config" ∷ path ∷ []) s
        ∙ rw (c, f, parse_config e.parse_duration path) refl,
    run-partition ("--config" ∷ path ∷ direction ∷ []) s
        ∙ rw (c, f, parse_config e.parse_duration path) refl,
  )

  -- The schema that is left: the one there was, or that of goose, for the direction asked for.
  abbrev pub IsMigrated : String → S → S → Type 0
  IsMigrated direction s after =
      (after ≡ s)
      ⊎ ((direction ≡ "up") × (after ≡ (g.up s).1))
      ⊎ ((direction ≡ "down") × (after ≡ (g.down s).1))

  direction-IsMigrated : (d : String) (s : S) → IsMigrated d s (run_direction g d s).1
  direction-IsMigrated d s = elim (Bool-cases (d == "up")) [
    | inl y ↦ inr (inl (ground (arith, y, eq_iff d "up"), ground (arith, y)))
    | inr n ↦ elim (Bool-cases (d == "down")) [
      | inl y ↦ inr (inr (ground (arith, y, eq_iff d "down"), ground (arith, n, y)))
      | inr m ↦ elim (Bool-cases (d == "status")) [
        | inl y ↦ inl (ground (arith, n, m, y))
        | inr k ↦ elim (Bool-cases (d == "version")) [
          | inl y ↦ inl (ground (arith, n, m, k, y))
          | inr l ↦ inl (ground (arith, n, m, k, l))
        ]
      ]
    ]
  ]

  database-IsMigrated :
      (d : String) (r : Run (Unit {0})) (s : S) → IsMigrated d s (with_database g d r s).1
  database-IsMigrated d (exits x) s = inl refl
  database-IsMigrated d (finished u) s = elim (Bool-cases g.set_dialect) [
    | inl y ↦ rw y (direction-IsMigrated d s)
    | inr n ↦ inl (rw n refl)
  ]

  flags-IsMigrated :
      (pos : List String) (p : Parsed) (s : S)
      → IsMigrated (direction_of pos) s (with_flags e g pos p s).1
  flags-IsMigrated pos wrong_usage s = inl refl
  flags-IsMigrated pos Flags.help s = inl refl
  flags-IsMigrated pos (parsed v rest) s =
      database-IsMigrated (direction_of pos) (opened e (text_of "config" v)) s

  -- Whatever its arguments are, `migrate` leaves the schema as it is, or migrates it up, when the
  -- first operand is "up" or there is none, or down, when it is "down".
  pub run_migrate-IsMigrated :
      (args : List String) (s : S)
      → IsMigrated (direction_of (partition args).pos_args) s (run_migrate e g args s).1
  run_migrate-IsMigrated args s = rw (run-partition args s) (
      flags-IsMigrated (partition args).pos_args
        (parse e.parse_duration (partition args).flag_args config_flags) s)
