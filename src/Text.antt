-- ===== src/Text.antt =====
-- strings.TrimRight, which the writers and the log of the migrations use.
use praetor_server.Prelude.{ℕ, [], ◌∷◌, Bytes, nat_beq, if◌then◌else◌}

abbrev keep : ℕ → ℕ → Bytes → Bytes
keep sep c [] = if nat_beq c sep then [] else c ∷ []
keep sep c (d ∷ s) = c ∷ d ∷ s

-- strings.TrimRight, for a cutset of one byte
unfoldable pub trim_right : ℕ → Bytes → Bytes
trim_right sep [] = []
trim_right sep (c ∷ s) = keep sep c (trim_right sep s)
