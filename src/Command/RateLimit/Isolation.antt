-- ===== src/Command/RateLimit/Isolation.antt =====
-- The limit of one host, apart from the others.
use praetor_server.Prelude.{
  ℕ, ◌+◌, String, ◌≡◌, refl, ap, sym, subst, ◌∙◌, Bool, true, false, Option, none, some, List, [],
  ◌∷◌, if◌then◌else◌, ◌==◌, string_eq, eq_iff, arith, Option-cases, Bool-cases, inl, inr,
}
use praetor_server.Dict.{lookup, lookup-insert}
use praetor_server.Command.RateLimit.{HostBucket, Buckets, allow, window_duration, ltb, leb}
use praetor_server.Command.RateLimit.Outcomes.{Calls, lookup-allow_ne}

-- The specification: a limiter for one host is the bucket of the window that is open, if any. A call
-- is refused only in an open window that has let 60 calls through.
abbrev within : ℕ → HostBucket → Bool × Option HostBucket
within now b =
    if ltb b.count 60 then (true, some (record b { count = b.count + 1 })) else (false, some b)

abbrev restarted : ℕ → Bool × Option HostBucket
restarted now = (true, some (record { count = 1; reset = now + window_duration }))

abbrev pub limited : ℕ → Option HostBucket → Bool × Option HostBucket
limited now none = restarted now
limited now (some b) = if leb now b.reset then within now b else restarted now

-- its answers to calls at the given instants
unfoldable pub alone : List ℕ → Option HostBucket → List Bool
alone [] o = []
alone (now ∷ times) o = let (yes?, after) = limited now o in yes? ∷ alone times after

-- the answers of Allow to the calls for the host `h`, and the instants of these calls
unfoldable pub answers : String → Calls → Buckets → List Bool
answers h [] m = []
answers h ((now, k) ∷ calls) m =
    let (yes?, after) = allow now k m in
    let rest = answers h calls after in if k == h then yes? ∷ rest else rest

unfoldable pub times_of : String → Calls → List ℕ
times_of h [] = []
times_of h ((now, k) ∷ calls) = let rest = times_of h calls in if k == h then now ∷ rest else rest

allow-limited :
    (now : ℕ) (h : String) (m : Buckets)
    → ((allow now h m).0 ≡ (limited now (lookup h m)).0)
      × (lookup h (allow now h m).1 ≡ (limited now (lookup h m)).1)
unfolding allow
allow-limited now h m =
    let same = eq_iff h h in
    let fresh = lookup-insert h h (record { count = 1; reset = now + window_duration }) m in
    elim (Option-cases (lookup h m)) [
      | inl n ↦ (ground (arith, n), ground (arith, n, same, fresh))
      | inr (b, e) ↦ (
        ground (arith, e),
        ground (arith, e, same, fresh, lookup-insert h h (record b { count = b.count + 1 }) m),
      )
    ]

own_call :
    (now : ℕ) (h : String) (calls : Calls) (times : List ℕ) (m : Buckets)
    → answers h calls (allow now h m).1 ≡ alone times (lookup h (allow now h m).1)
    → (allow now h m).0 ∷ answers h calls (allow now h m).1 ≡ alone (now ∷ times) (lookup h m)
unfolding alone
own_call now h calls times m rest =
    let (answer, after) = allow-limited now h m in
    ap (λ a. a ∷ answers h calls (allow now h m).1) answer
    ∙ ap (λ more. (limited now (lookup h m)).0 ∷ more) (rest ∙ ap (alone times) after)

answers-alone :
    (h : String) (calls : Calls) (m : Buckets)
    → answers h calls m ≡ alone (times_of h calls) (lookup h m)
unfolding answers alone times_of
answers-alone h [] m = refl
answers-alone h ((now, k) ∷ calls) m = elim (Bool-cases (k == h)) [
  | inl own ↦ rw own (
      subst
        (λ j.
          (allow now j m).0 ∷ answers h calls (allow now j m).1
          ≡ alone (now ∷ times_of h calls) (lookup h m))
        (sym ((eq_iff k h).0 own))
        (own_call now h calls (times_of h calls) m (answers-alone h calls (allow now h m).1)))
  | inr other ↦ rw other (
      answers-alone h calls (allow now k m).1
      ∙ ap (alone (times_of h calls))
          (lookup-allow_ne now k h m (λ p. ground (arith, other, p, eq_iff k h))))
]

-- The limiter answers each host as a limiter of its own would: whatever calls there are for other
-- hosts, and in whatever order, the answers to the calls for a host depend on their instants only.
pub allow_refines :
    (h : String) (calls : Calls) → answers h calls [] ≡ alone (times_of h calls) none
unfolding lookup
allow_refines h calls = answers-alone h calls []
