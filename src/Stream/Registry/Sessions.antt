-- ===== src/Stream/Registry/Sessions.antt =====
-- The registry over a sequence of sessions: Connect adds its stream when it begins and removes the
-- host when it ends.
use praetor_server.Prelude.{
  ℕ, String, ◌≡◌, ◌≢◌, refl, Bool, not, ◌&&◌, none, some, List, [], ◌∷◌, arith, ◌==◌, string_eq,
  nat_eq, eq_iff, In, inl, inr, either, Bool-cases,
}
use praetor_server.Dict.{lookup, insert, lookup-insert, lookup-delete}
use praetor_server.Sql.{select, In-select, select-In}
use praetor_server.Stream.Registry.{Registry, add, remove, get}

pub record Session : Type 0 where
  pub host : String
  pub stream : ℕ

-- Connect begins, or its deferred Remove runs.
pub data Event : Type 0 where
  opens closes : Session → Event

unfoldable pub registry_after : Registry → Event → Registry
registry_after r (opens s) = add s.host s.stream r
registry_after r (closes s) = remove s.host r

abbrev other : Session → Session → Bool
other s x = not (x.host == s.host && x.stream == s.stream)

unfoldable pub live_after : List Session → Event → List Session
live_after live (opens s) = s ∷ live
live_after live (closes s) = select (other s) live

unfoldable pub run : Registry → List Event → Registry
run r [] = r
run r (e ∷ es) = run (registry_after r e) es

unfoldable pub live : List Session → List Event → List Session
live ss [] = ss
live ss (e ∷ es) = live (live_after ss e) es

-- A session begins only when its host has no live one, and ends only while it is live.
abbrev IsOrderly : List Session → Event → Type 0
IsOrderly ss (opens s) = (x : Session) → In x ss → x.host ≢ s.host
IsOrderly ss (closes s) = In s ss

abbrev pub NoOverlap : List Session → List Event → Type 0
NoOverlap ss [] = Unit
NoOverlap ss (e ∷ es) = IsOrderly ss e × NoOverlap (live_after ss e) es

-- The registry holds the live sessions and nothing else.
pub record IsTracked (r : Registry) (ss : List Session) : Type 0 where
  pub sound : (h : String) (s : ℕ) → get h r ≡ some s → In (record { host = h; stream = s }) ss
  pub complete : (x : Session) → In x ss → get x.host r ≡ some x.stream

module _ (r : Registry) (ss : List Session) (t : IsTracked r ss) (s : Session) where
  open_IsTracked : IsOrderly ss (opens s) → IsTracked (add s.host s.stream r) (s ∷ ss)
  unfolding add get
  open_IsTracked alone = record {
    sound = λ h n e. elim (Bool-cases (s.host == h)) [
      | inl y ↦ inl (ground (arith, y, e, lookup-insert s.host h s.stream r, eq_iff s.host h))
      | inr f ↦ inr (t.sound h n (ground (arith, f, e, lookup-insert s.host h s.stream r)))
    ];
    complete = λ x i.
        either i
          (λ e. ground (arith, e, lookup-insert s.host x.host s.stream r, eq_iff s.host x.host))
          (λ j. ground (
            arith,
            alone x j,
            t.complete x j,
            lookup-insert s.host x.host s.stream r,
            eq_iff s.host x.host,
          ));
  }

  close_IsTracked : In s ss → IsTracked (remove s.host r) (select (other s) ss)
  unfolding remove get
  close_IsTracked own = record {
    sound = λ h n e.
        In-select (other s) (record { host = h; stream = n }) ss
          (t.sound h n (ground (arith, e, lookup-delete s.host h r)))
          (ground (arith, e, lookup-delete s.host h r, eq_iff h s.host, eq_iff s.host h));
    complete = λ x i.
        let (j, y) = select-In (other s) x ss i in
        ground (
          arith,
          y,
          t.complete x j,
          t.complete s own,
          lookup-delete s.host x.host r,
          eq_iff x.host s.host,
          eq_iff s.host x.host,
        );
  }

step-IsTracked :
    (r : Registry) (ss : List Session) (e : Event)
    → IsTracked r ss
    → IsOrderly ss e
    → IsTracked (registry_after r e) (live_after ss e)
unfolding registry_after live_after
step-IsTracked r ss (opens s) t o = open_IsTracked r ss t s o
step-IsTracked r ss (closes s) t o = close_IsTracked r ss t s o

run_from-IsTracked :
    (r : Registry) (ss : List Session) (es : List Event)
    → IsTracked r ss
    → NoOverlap ss es
    → IsTracked (run r es) (live ss es)
unfolding run live
run_from-IsTracked r ss [] t o = t
run_from-IsTracked r ss (e ∷ es) t o =
    run_from-IsTracked (registry_after r e) (live_after ss e) es (step-IsTracked r ss e t o.0) o.1

nothing-IsTracked : IsTracked [] []
unfolding get lookup
nothing-IsTracked = record { sound = λ h s e. cc; complete = λ x i. absurd i }

-- As long as no host opens a second session while it has one, the registry that the server starts
-- empty holds exactly the live sessions: a host is found with its stream, or not at all.
pub run-IsTracked : (es : List Event) → NoOverlap [] es → IsTracked (run [] es) (live [] es)
run-IsTracked es o = run_from-IsTracked [] [] es nothing-IsTracked o

-- a host connects again before its old session has ended
abbrev pub reconnect : String → ℕ → ℕ → List Event
reconnect h old new =
    opens (record { host = h; stream = old })
    ∷ opens (record { host = h; stream = new })
    ∷ closes (record { host = h; stream = old })
    ∷ []

-- When a host connects again before its old session has ended, the end of the old session removes
-- the new one: from any registry the host is then not found, though its new session is live.
pub reconnect_lost :
    (r : Registry) (ss : List Session) (h : String) (old new : ℕ)
    → old ≢ new
    → (get h (run r (reconnect h old new)) ≡ none)
      × In (record { host = h; stream = new }) (live ss (reconnect h old new))
unfolding run live registry_after live_after add remove get
reconnect_lost r ss h old new ne = (
  ground (arith, lookup-delete h h (insert h new (insert h old r)), eq_iff h h),
  In-select (other (record { host = h; stream = old })) (record { host = h; stream = new }) _
      (inl refl) (ground (arith, ne)),
)
