-- ===== src/Stream/Handler/Goroutines.antt =====
-- The goroutines that handleMessage of internal/stream/handler.go starts, when they get to the
-- database: in any order, each with its own answer, and at any time after it was started.
pub mod Kept
use praetor_server.Prelude.{ℕ, zero, suc, String, Bool, Option, none, some, List, [], ◌∷◌}
use praetor_server.Result.{Conn}
use praetor_server.Stream.Handler.{Task, Written, run_task}

-- One goroutine gets to its statement: which of those that are left, and what it finds.
pub record Pick : Type 0 where
  pub index : ℕ
  pub conn : Conn
  pub hosts : String → Bool
  pub clock : ℕ

abbrev pub put_back : {A : Type 0} → A → Option (A × List A) → Option (A × List A)
put_back x none = none
put_back x (some (y, ys)) = some (y, x ∷ ys)

-- the element at an index, and the others
abbrev pub take_out : {A : Type 0} → ℕ → List A → Option (A × List A)
take_out n [] = none
take_out zero (x ∷ xs) = some (x, xs)
take_out (suc n) (x ∷ xs) = put_back x (take_out n xs)

module _ {M L R : Type 0} where
  -- an index past the end picks nothing
  abbrev pub after_pick :
      Pick
      → Option (Task M L × List (Task M L))
      → List (Task M L)
      → Written R
      → List (Task M L) × Written R
  after_pick p none ts t = (ts, t)
  after_pick p (some (k, rest)) ts t = (rest, run_task p.conn p.hosts p.clock k t)

  -- The goroutines that are not picked have not got to their statement yet.
  unfoldable pub run_picks : List Pick → List (Task M L) → Written R → Written R
  run_picks [] ts t = t
  run_picks (p ∷ ps) ts t =
      let (rest, after) = after_pick p (take_out p.index ts) ts t in run_picks ps rest after
