-- ===== src/Command/RateLimit.antt =====
-- internal/command/ratelimit.go: the rate limit of commands to one host. Instants are counts of
-- nanoseconds. The mutex makes each call of Allow one step.
pub mod Outcomes
pub mod Bounds
pub mod Burst
pub mod Isolation
use praetor_server.Prelude.{
  ℕ, ◌+◌, ◌*◌, String, Bool, true, false, Option, none, some, List, [], ◌∷◌, ltb, leb,
  if◌then◌else◌, ◌==◌, string_eq,
}
use praetor_server.Dict.{Dict, lookup, insert}

abbrev pub max_commands_per_window : ℕ
max_commands_per_window = 60

abbrev pub window_duration : ℕ
window_duration = 5 * 60 * 1_000_000_000

pub record HostBucket : Type 0 where
  pub count : ℕ
  pub reset : ℕ

abbrev pub Buckets : Type 0
Buckets = Dict HostBucket

abbrev fresh : ℕ → HostBucket
fresh now = record { count = 1; reset = now + window_duration }

-- the part of Allow behind the lookup; `true` is the nil error
decide : ℕ → String → Option HostBucket → Buckets → Bool × Buckets
decide now host none m = (true, insert host (fresh now) m)
decide now host (some b) m =
    if ltb b.reset now
    then (true, insert host (fresh now) m)
    else if leb max_commands_per_window b.count
    then (false, m)
    else (true, insert host (record b { count = b.count + 1 }) m)

unfoldable pub allow : ℕ → String → Buckets → Bool × Buckets
unfolding decide
allow now host m = decide now host (lookup host m) m
