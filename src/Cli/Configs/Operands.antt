-- ===== src/Cli/Configs/Operands.antt =====
-- The arguments that `config set` and `config get` read.
use praetor_server.Prelude.{String, ◌≡◌, refl, List, [], ◌∷◌, ℤ, Option}
use praetor_server.Cli.Flags.{config_flags, Values, word, operand, parse, parsed}
use praetor_server.Cli.Configs.{World, Configs, run_config_set}

pub parse-operand :
    (d : String → Option ℤ) (a : String) (rest : List String) (v : Values)
    → word a ≡ operand
    → parse d (a ∷ rest) v ≡ parsed v (a ∷ rest)
unfolding parse
parse-operand d a [] v h = rw h refl
parse-operand d a (b ∷ rest) v h = rw h refl

-- When the host id is no flag, `config set` reads nothing behind its two operands: a --config that
-- follows them has no effect.
pub run_config_set-operands :
    (w : World) (host_id pair : String) (rest : List String) (rows : Configs)
    → word host_id ≡ operand
    → run_config_set w (host_id ∷ pair ∷ rest) rows ≡ run_config_set w (host_id ∷ pair ∷ []) rows
unfolding run_config_set
run_config_set-operands w host_id pair rest rows h =
    rw
      (
        parse-operand w.env.parse_duration host_id (pair ∷ rest) config_flags h,
        parse-operand w.env.parse_duration host_id (pair ∷ []) config_flags h,
      )
      refl
