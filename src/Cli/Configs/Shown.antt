-- ===== src/Cli/Configs/Shown.antt =====
-- What `config get` prints after `config set`.
use praetor_server.Dict.{lookup}
use praetor_server.Cli.Flags.{config_flags, text_of}
use praetor_server.Cli.{Run}
use praetor_server.Cli.Configs.{}
use praetor_server.Prelude.{◌∙◌, sym, Bool, false}
use praetor_server.Result.{Result}
use praetor_server.Cli.{after_open}
use praetor_server.Cli.Configs.{got}
use praetor_server.Prelude.{if◌then◌else◌, ap, ◌==◌, string_eq}
use praetor_server.Prelude.{
  String, ◌≡◌, refl, [], ◌∷◌, ℤ, some, true, arith, Option-cases, inl, inr, codes,
}
use praetor_server.Result.{ok, err, Result-cases}
use praetor_server.Store.Configs.{HostConfig, Field, get, set_field, allowed}
use praetor_server.Store.Configs.Versions.{get-set_field, set_to, map_ok}
use praetor_server.Api.{atoi}
use praetor_server.Cli.{finished, exits, opened, Run-cases}
use praetor_server.Cli.Flags.{word, operand, cut, default_config_path}
use praetor_server.Cli.Configs.{
  World, Configs, Output, updated, config, run_config_set, run_config_get, text_of,
}
use praetor_server.Cli.Configs.Operands.{parse-operand}

abbrev map_shown : (HostConfig → HostConfig) → Run Output → Run Output
map_shown f (exits e) = exits e
map_shown f (finished (updated h k v)) = finished (updated h k v)
map_shown f (finished (config c)) = finished (config (f c))

module _ (w : World) (host_id pair key : String) (value : ℤ) (rows after : Configs) where
  set_worked :
      word host_id ≡ operand
      → run_config_set w (host_id ∷ pair ∷ []) rows ≡ (finished (updated host_id key value), after)
      → (opened w.env default_config_path ≡ finished tt)
        × (set_field w.conn w.hosts host_id key value rows ≡ (ok tt, after))
  unfolding run_config_set text_of lookup
  set_worked op h =
      let args = parse-operand w.env.parse_duration host_id (pair ∷ []) config_flags op in
      elim (Option-cases (cut pair).1) [
        | inl n ↦ absurd (ground (arith, args, n, h))
        | inr (text, t) ↦ elim (Option-cases (atoi (codes text))) [
          | inl n ↦ absurd (ground (arith, args, t, n, h))
          | inr (number, a) ↦ elim (Run-cases (opened w.env default_config_path)) [
            | inl (e, bad) ↦ absurd (ground (arith, args, t, a, bad, h))
            | inr (u, good) ↦
                elim (Result-cases (set_field w.conn w.hosts host_id (cut pair).0 number rows).0) [
                  | inl (e, bad) ↦ absurd (ground (arith, args, t, a, good, bad, h))
                  | inr (z, stored) ↦ (good, ground (arith, args, t, a, good, stored, h))
                ]
          ]
        ]
      ]

shown_map :
    (f : HostConfig → HostConfig) (b : Bool) (r : Run (Unit {0})) (g : Result HostConfig)
    → after_open r (got (if b then map_ok f g else g))
      ≡ (if b then map_shown f (after_open r (got g)) else after_open r (got g))
shown_map f false r g = refl
shown_map f true (exits e) g = refl
shown_map f true (finished u) (err e) = refl
shown_map f true (finished u) (ok c) = refl

get_run :
    (w : World) (asked : String) (rows : Configs)
    → word asked ≡ operand
    → run_config_get w (asked ∷ []) rows
      ≡ after_open (opened w.env default_config_path) (got (get w.conn asked rows))
unfolding run_config_get text_of lookup
get_run w asked rows op = rw (parse-operand w.env.parse_duration asked [] config_flags op) refl

-- After a `config set` of a host that worked, `config get` of the host prints, while the
-- configuration and the database work, the configuration that it would have printed before with the
-- one field set to the value and the version moved on by one; for another host it prints what it
-- would have printed.
pub run_config_get-set :
    (w w' : World) (host_id pair key asked : String) (value : ℤ) (rows after : Configs)
    → word host_id ≡ operand
    → word asked ≡ operand
    → w'.conn.up ≡ true
    → run_config_set w (host_id ∷ pair ∷ []) rows ≡ (finished (updated host_id key value), after)
    → (f : Field) × (allowed key ≡ some f)
      × (run_config_get w' (asked ∷ []) after ≡ (
          if host_id == asked
          then map_shown (set_to w.conn.now f value) (run_config_get w' (asked ∷ []) rows)
          else run_config_get w' (asked ∷ []) rows))
run_config_get-set w w' host_id pair key asked value rows after op op' up h =
    let (works, stored) = set_worked w host_id pair key value rows after op h in
    let (f, known, small, found) =
      get-set_field w.conn w'.conn w.hosts host_id value rows key asked (ap (λ x. x.0) stored) up in
    let now : get w'.conn asked after ≡ (
        if host_id == asked
        then map_ok (set_to w.conn.now f value) (get w'.conn asked rows)
        else get w'.conn asked rows) =
      ap (λ x. get w'.conn asked x.1) (sym stored) ∙ found in
    (
      f,
      known,
      rw (get_run w' asked after op', get_run w' asked rows op', now)
          (shown_map (set_to w.conn.now f value) (host_id == asked)
            (opened w'.env default_config_path) (get w'.conn asked rows)),
    )
