-- ===== src/Command/RateLimit/Burst.antt =====
-- Bursts of commands around the end of a window.
use praetor_server.Prelude.{ℕ, zero, suc, ◌+◌, ◌≤◌, ◌<◌, String, ◌≡◌, refl, true, [], ◌∷◌, arith}
use praetor_server.Dict.{lookup}
use praetor_server.Command.RateLimit.{HostBucket, Buckets, allow, window_duration, some}
use praetor_server.Command.RateLimit.Outcomes.{
  Calls, allowed, Outcome, opens, counts, denies, outcome,
}
use praetor_server.Command.RateLimit.Bounds.{allowed_own}

-- `n` calls for the host at one clock reading, before the others
abbrev pub burst : ℕ → ℕ → String → Calls → Calls
burst zero now h rest = rest
burst (suc n) now h rest = (now, h) ∷ burst n now h rest

module _ (h : String) (now : ℕ) where
  step_open :
      (rest : Calls) (m : Buckets) (b : HostBucket)
      → Outcome now h m
      → lookup h m ≡ some b
      → b.count < 60
      → now ≤ b.reset
      → (lookup h (allow now h m).1 ≡ some (record b { count = b.count + 1 }))
        × ((allow now h m).0 ≡ true)
  step_open rest m b (opens old y l) e lt r = absurd (omega (arith, old b e))
  step_open rest m b (counts x ex ltx le y l) e lt r = ground (arith, e, ex, y, l)
  step_open rest m b (denies x ex full le y l) e lt r = absurd (ground (arith, e, ex))

  -- Within its window a bucket with room for `n` commands lets `n` through.
  fill :
      (n : ℕ) (rest : Calls) (m : Buckets) (b : HostBucket)
      → lookup h m ≡ some b
      → b.count + n ≤ 60
      → now ≤ b.reset
      → (m' : Buckets) × (allowed h (burst n now h rest) m ≡ n + allowed h rest m')
        × (lookup h m' ≡ some (record b { count = b.count + n }))
  fill zero rest m b e room r = (m, omega arith, ground (arith, e))
  fill (suc n) rest m b e room r =
      let (l, y) = step_open rest m b (outcome now h m) e (omega arith) r in
      let (m', a, l') =
        fill n rest (allow now h m).1 (record b { count = b.count + 1 }) l (omega arith) r in
      (m', ground (arith, y, a, allowed_own h now (burst n now h rest) m), ground (arith, l'))

  open_window :
      (m : Buckets)
      → Outcome now h m
      → ((b : HostBucket) → lookup h m ≡ some b → b.reset < now)
      → (lookup h (allow now h m).1 ≡ some (record { count = 1; reset = now + window_duration }))
        × ((allow now h m).0 ≡ true)
  open_window m (opens old y l) out = (l, y)
  open_window m (counts x ex ltx le y l) out = absurd (omega (arith, out x ex))
  open_window m (denies x ex full le y l) out = absurd (omega (arith, out x ex))

  -- A call after the end of its window opens a new one, with room for 59 more.
  refill :
      (n : ℕ) (rest : Calls) (m : Buckets)
      → ((b : HostBucket) → lookup h m ≡ some b → b.reset < now)
      → n ≤ 59
      → (m' : Buckets) × (allowed h (burst (suc n) now h rest) m ≡ suc n + allowed h rest m')
        × (lookup h m' ≡ some (record { count = 1 + n; reset = now + window_duration }))
  refill n rest m out room =
      let (l, y) = open_window m (outcome now h m) out in
      let (m', a, l') =
        fill n rest (allow now h m).1 (record { count = 1; reset = now + window_duration }) l
          (omega arith) (omega arith) in
      (m', ground (arith, y, a, allowed_own h now (burst n now h rest) m), l')

allowed-nil : (h : String) (m : Buckets) → allowed h [] m ≡ 0
unfolding allowed
allowed-nil h m = refl

nothing_yet : (h : String) (now : ℕ) (b : HostBucket) → lookup h [] ≡ some b → b.reset < now
unfolding lookup
nothing_yet h now b e = cc

-- The burst: one call opens a window, `n` more come at its last moment and `k + 1` a nanosecond
-- later.
abbrev pub two_bursts : ℕ → ℕ → ℕ → String → Calls
two_bursts n k t h =
    burst 1 t h (burst n (t + window_duration) h (burst (suc k) (t + window_duration + 1) h []))

-- From an empty limiter, all of a burst is let through if it has at most 59 commands at the last
-- moment of the window, after the one that opened it, and at most 60 a nanosecond later: at any time
-- and for any host. With 59 and 60 these are 119 commands within a nanosecond.
pub burst_allowed :
    (n k t : ℕ) (h : String) → n ≤ 59 → k ≤ 59 → allowed h (two_bursts n k t h) [] ≡ 1 + n + (1 + k)
burst_allowed n k t h room room' =
    let end = t + window_duration in
    let last = burst (suc k) (end + 1) h [] in
    let (m, a, l) = refill h t 0 (burst n end h last) [] (nothing_yet h t) (omega arith) in
    let (m', a', l') =
      fill h end n last m (record { count = 1; reset = end }) l (omega arith) (omega arith) in
    let (m'', a'', l'') = refill h (end + 1) k [] m' (λ b e. ground (arith, l', e)) room' in
    omega (arith, a, a', a'', allowed-nil h m'')
