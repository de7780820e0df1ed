-- ===== src/Command/RateLimit/Outcomes.antt =====
-- What one call of Allow does to the buckets.
use praetor_server.Prelude.{
  ℕ, suc, ◌+◌, ◌≤◌, ◌<◌, String, ◌≡◌, ◌≢◌, true, false, none, some, List, [], ◌∷◌, if◌then◌else◌,
  arith, ◌==◌, string_eq, eq_iff, Bool-cases, Option-cases, inl, inr,
}
use praetor_server.Dict.{lookup, lookup-insert}
use praetor_server.Command.RateLimit.{HostBucket, Buckets, allow, window_duration, ltb, leb}

-- Calls of Allow: the clock reading and the host of each.
abbrev pub Calls : Type 0
Calls = List (ℕ × String)

-- how many of the calls for the host `h` are allowed
unfoldable pub allowed : String → Calls → Buckets → ℕ
allowed h [] m = 0
allowed h ((now, k) ∷ calls) m =
    let (yes?, m') = allow now k m in
    let rest = allowed h calls m' in if k == h then (if yes? then suc rest else rest) else rest

-- Allow for one host leaves the buckets of all others alone.
pub lookup-allow_ne :
    (now : ℕ) (k j : String) (m : Buckets) → k ≢ j → lookup j (allow now k m).1 ≡ lookup j m
unfolding allow
lookup-allow_ne now k j m ne = elim (Option-cases (lookup k m)) [
  | inl e ↦ ground (
    arith,
    ne,
    e,
    eq_iff k j,
    lookup-insert k j (record { count = 1; reset = now + window_duration }) m,
  )
  | inr (b, e) ↦ ground (
    arith,
    ne,
    e,
    eq_iff k j,
    lookup-insert k j (record { count = 1; reset = now + window_duration }) m,
    lookup-insert k j (record b { count = b.count + 1 }) m,
  )
]

-- What one call for the host does to its bucket.
pub data Outcome (now : ℕ) (h : String) (m : Buckets) : Type 0 where
  opens :
      ((b : HostBucket) → lookup h m ≡ some b → b.reset < now)
      → (allow now h m).0 ≡ true
      → lookup h (allow now h m).1 ≡ some (record { count = 1; reset = now + window_duration })
      → Outcome now h m
  counts :
      (b : HostBucket)
      → lookup h m ≡ some b
      → b.count < 60
      → now ≤ b.reset
      → (allow now h m).0 ≡ true
      → lookup h (allow now h m).1 ≡ some (record b { count = b.count + 1 })
      → Outcome now h m
  denies :
      (b : HostBucket)
      → lookup h m ≡ some b
      → 60 ≤ b.count
      → now ≤ b.reset
      → (allow now h m).0 ≡ false
      → lookup h (allow now h m).1 ≡ some b
      → Outcome now h m

module _ (now : ℕ) (h : String) (m : Buckets) where
  abbrev pub opened : HostBucket
  opened = record { count = 1; reset = now + window_duration }

  absent_outcome : lookup h m ≡ none → Outcome now h m
  unfolding allow
  absent_outcome e =
      opens (λ b p. ground (arith, e, p)) (ground (arith, e))
        (ground (arith, e, eq_iff h h, lookup-insert h h opened m))

  present_outcome : (b : HostBucket) → lookup h m ≡ some b → Outcome now h m
  unfolding allow
  present_outcome b e = elim (Bool-cases (ltb b.reset now)) [
    | inl past ↦
        opens (λ x p. ground (arith, e, p, past)) (ground (arith, e, past))
          (ground (arith, e, past, eq_iff h h, lookup-insert h h opened m))
    | inr open_window ↦ elim (Bool-cases (leb 60 b.count)) [
      | inl full ↦
          denies b e (ground (arith, full)) (ground (arith, open_window))
            (ground (arith, e, open_window, full)) (ground (arith, e, open_window, full))
      | inr room ↦
          counts b e (ground (arith, room)) (ground (arith, open_window))
            (ground (arith, e, open_window, room))
            (ground (
              arith,
              e,
              open_window,
              room,
              eq_iff h h,
              lookup-insert h h (record b { count = b.count + 1 }) m,
            ))
    ]
  ]

  pub outcome : Outcome now h m
  outcome = elim (Option-cases (lookup h m)) [
    | inl e ↦ absent_outcome e
    | inr (b, e) ↦ present_outcome b e
  ]
