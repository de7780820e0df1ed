-- ===== src/Command/RateLimit/Bounds.antt =====
-- How many commands the limit lets through in a window.
use praetor_server.Prelude.{
  ℕ, suc, ◌+◌, ◌≤◌, ◌<◌, String, ◌≡◌, false, Option, none, some, [], ◌∷◌, All, if◌then◌else◌, arith,
  ◌==◌, string_eq, eq_iff, Bool-cases, inl, inr, ◌∙◌,
}
use praetor_server.Dict.{lookup}
use praetor_server.Command.RateLimit.{HostBucket, Buckets, allow, window_duration}
use praetor_server.Command.RateLimit.Outcomes.{
  Calls, allowed, lookup-allow_ne, Outcome, opens, counts, denies, opened, outcome,
}

abbrev pub Within : ℕ → ℕ → Calls → Type 0
Within lo hi = All (λ c. (lo ≤ c.0) × (c.0 ≤ hi))

module _ (h : String) where
  allowed_other :
      (now : ℕ) (k : String) (calls : Calls) (m : Buckets)
      → (k == h) ≡ false
      → allowed h ((now, k) ∷ calls) m ≡ allowed h calls (allow now k m).1
  unfolding allowed
  allowed_other now k calls m e = ground (arith, e)

  pub allowed_own :
      (now : ℕ) (calls : Calls) (m : Buckets)
      → allowed h ((now, h) ∷ calls) m ≡ (
          if (allow now h m).0
          then suc (allowed h calls (allow now h m).1)
          else allowed h calls (allow now h m).1)
  unfolding allowed
  allowed_own now calls m = ground (arith, eq_iff h h)

  -- What a call for the host adds to the count of a bucket whose window is still open.
  own_rest :
      (now : ℕ) (calls : Calls) (m : Buckets) (b : HostBucket) (limit : ℕ)
      → lookup h m ≡ some b
      → now ≤ b.reset
      → Outcome now h m
      → (b.count < 60
          → lookup h (allow now h m).1 ≡ some (record b { count = b.count + 1 })
          → allowed h calls (allow now h m).1 + (b.count + 1) ≤ limit)
      → (lookup h (allow now h m).1 ≡ some b → allowed h calls (allow now h m).1 + b.count ≤ limit)
      → allowed h ((now, h) ∷ calls) m + b.count ≤ limit
  own_rest now calls m b limit e r (opens old y l) more same = absurd (omega (arith, old b e))
  own_rest now calls m b limit e r (counts x ex lt le y l) more same =
      ground (arith, e, ex, lt, y, l, allowed_own now calls m, more)
  own_rest now calls m b limit e r (denies x ex full le y l) more same =
      ground (arith, e, ex, y, l, allowed_own now calls m, same)

  -- Until its window ends, a bucket lets through what is left of 60.
  pub window_rest :
      (hi : ℕ) (calls : Calls) (m : Buckets) (b : HostBucket)
      → lookup h m ≡ some b
      → b.count ≤ 60
      → hi ≤ b.reset
      → All (λ c. c.0 ≤ hi) calls
      → allowed h calls m + b.count ≤ 60
  window_rest hi [] m b e n r w = unfold allowed in omega arith
  window_rest hi ((now, k) ∷ calls) m b e n r w = elim (Bool-cases (k == h)) [
    | inr other ↦ rw (allowed_other now k calls m other) (
        window_rest hi calls (allow now k m).1 b
          (lookup-allow_ne now k h m (λ p. ground (arith, other, p, eq_iff k h)) ∙ e) n r w.1)
    | inl own ↦ rw ((eq_iff k h).0 own) (
        own_rest now calls m b 60 e (omega (arith, w.0)) (outcome now h m)
          (λ lt l.
            window_rest hi calls (allow now h m).1 (record b { count = b.count + 1 }) l
              (omega arith) r w.1)
          (λ l. window_rest hi calls (allow now h m).1 b l n r w.1))
  ]

  -- The count of the host's bucket, 0 if it has none.
  abbrev counted : Option HostBucket → ℕ
  counted none = 0
  counted (some b) = b.count

  abbrev IsCapped : Buckets → Type 0
  IsCapped m = counted (lookup h m) ≤ 60

  allow_own-IsCapped :
      (now : ℕ) (m : Buckets) → Outcome now h m → IsCapped m → IsCapped (allow now h m).1
  allow_own-IsCapped now m (opens old y l) c = rw l (omega arith)
  allow_own-IsCapped now m (counts b e lt le y l) c = rw l (omega arith)
  allow_own-IsCapped now m (denies b e full le y l) c = rw l (ground (arith, e, c))

  allow-IsCapped : (now : ℕ) (k : String) (m : Buckets) → IsCapped m → IsCapped (allow now k m).1
  allow-IsCapped now k m c = elim (Bool-cases (k == h)) [
    | inl own ↦ rw ((eq_iff k h).0 own) (allow_own-IsCapped now m (outcome now h m) c)
    | inr other ↦ rw (lookup-allow_ne now k h m (λ p. ground (arith, other, p, eq_iff k h))) c
  ]

  own_spread :
      (lo now : ℕ) (calls : Calls) (m : Buckets)
      → Outcome now h m
      → lo ≤ now
      → IsCapped m
      → All (λ c. c.0 ≤ lo + window_duration) calls
      → allowed h calls (allow now h m).1 + counted (lookup h (allow now h m).1) ≤ 120
      → allowed h ((now, h) ∷ calls) m + counted (lookup h m) ≤ 120
  own_spread lo now calls m (opens old y l) early c w ih = ground (
    arith,
    y,
    c,
    allowed_own now calls m,
    window_rest (lo + window_duration) calls (allow now h m).1 (opened now h m) l (omega arith)
        (omega arith) w,
  )
  own_spread lo now calls m (counts b e lt le y l) early c w ih =
      ground (arith, y, c, e, l, ih, allowed_own now calls m)
  own_spread lo now calls m (denies b e full le y l) early c w ih =
      ground (arith, y, c, e, l, ih, allowed_own now calls m)

  latest :
      (lo : ℕ) (calls : Calls)
      → Within lo (lo + window_duration) calls
      → All (λ c. c.0 ≤ lo + window_duration) calls
  latest lo [] w = tt
  latest lo (c ∷ calls) w = (w.0.1, latest lo calls w.1)

  spread :
      (lo : ℕ) (calls : Calls) (m : Buckets)
      → IsCapped m
      → Within lo (lo + window_duration) calls
      → allowed h calls m + counted (lookup h m) ≤ 120
  spread lo [] m c w = unfold allowed in omega arith
  spread lo ((now, k) ∷ calls) m c w = elim (Bool-cases (k == h)) [
    | inl own ↦ rw ((eq_iff k h).0 own) (
        own_spread lo now calls m (outcome now h m) w.0.0 c (latest lo calls w.1)
          (spread lo calls (allow now h m).1 (allow-IsCapped now h m c) w.1))
    | inr other ↦
        let same : lookup h (allow now k m).1 ≡ lookup h m =
          lookup-allow_ne now k h m (λ p. ground (arith, other, p, eq_iff k h)) in
        rw (allowed_other now k calls m other, ← same)
          (spread lo calls (allow now k m).1 (allow-IsCapped now k m c) w.1)
  ]

-- the buckets after a history of calls
unfoldable pub run : Calls → Buckets → Buckets
run [] m = m
run ((now, k) ∷ calls) m = run calls (allow now k m).1

run-IsCapped : (h : String) (calls : Calls) (m : Buckets) → IsCapped h m → IsCapped h (run calls m)
unfolding run
run-IsCapped h [] m c = c
run-IsCapped h ((now, k) ∷ calls) m c =
    run-IsCapped h calls (allow now k m).1 (allow-IsCapped h now k m c)

-- Whatever was called before, and in whatever order the clock was read, the calls whose clock
-- readings fall within one window of five minutes let at most 120 commands to one host through.
pub window_bound :
    (h : String) (earlier calls : Calls) (lo : ℕ)
    → Within lo (lo + window_duration) calls
    → allowed h calls (run earlier []) ≤ 120
unfolding lookup
window_bound h earlier calls lo w =
    omega (arith, spread h lo calls (run earlier []) (run-IsCapped h earlier [] (omega arith)) w)
