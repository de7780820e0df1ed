-- ===== src/Prelude/Int.antt =====
-- Signed numbers: `negsuc n` is -(n + 1).
use Prim.Native.Nat.{ℕ, ◌^◌}
use mathlib.Core.Bool.{Bool}
use praetor_server.Prelude.Tests.{ltb}

pub data ℤ : Type 0 where
  pos : ℕ → ℤ
  negsuc : ℕ → ℤ

-- the range of a signed number of w + 1 bits
abbrev pub fits : ℕ → ℤ → Bool
fits w (pos n) = ltb n (2 ^ w)
fits w (negsuc n) = ltb n (2 ^ w)
