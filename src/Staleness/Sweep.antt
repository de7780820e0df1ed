-- ===== src/Staleness/Sweep.antt =====
-- Which hosts a sweep marks, and which it notifies about.
use praetor_server.Prelude.{
  ℕ, ◌+◌, ◌<◌, ◌≤◌, String, ◌≡◌, ◌↔◌, refl, true, false, some, List, [], ◌∷◌, map, if◌then◌else◌,
  arith, ◌==◌, string_eq, eq_iff, In, inl, inr, Bool-cases, either, ◌⊎◌, ap, ◌∙◌, Option-cases,
}
use praetor_server.Result.{ok, Conn}
use praetor_server.Sql.{select, update_where, select-In, In-select, In-update, update-In}
use praetor_server.Store.Hosts.{
  Host, Hosts, mark_offline, is_stale, to_offline, heartbeat_timeout, update_heartbeat, has_id,
  beat,
}
use praetor_server.Staleness.{Notice, notice, run_once, notify_all, notify_webhook}

-- An online host whose last heartbeat is more than 90 seconds back.
pub record IsSilent (now : ℕ) (h : Host) : Type 0 where
  pub online : h.status ≡ "online"
  pub last : (t : ℕ) × (h.last_heartbeat_at ≡ some t) × (t + heartbeat_timeout < now)

stale-IsSilent : (now : ℕ) (h : Host) → is_stale now h ≡ true → IsSilent now h
stale-IsSilent now h y = elim (Option-cases h.last_heartbeat_at) [
  | inl e ↦ absurd (ground (arith, e))
  | inr (t, e) ↦ record {
    online = ground (arith, eq_iff h.status "online");
    last = (t, e, ground (arith, e));
  }
]

silent-stale : (now : ℕ) (h : Host) → IsSilent now h → is_stale now h ≡ true
silent-stale now h s =
    let (t, e, lt) = s.last in ground (arith, e, lt, s.online, eq_iff h.status "online")

notify_all-map :
    (url : String) (hs : Hosts) → notify_all url hs ≡ (if url == "" then [] else map notice hs)
unfolding notify_all notify_webhook
notify_all-map url [] = ground arith
notify_all-map url (h ∷ hs) = ground (arith, notify_all-map url hs)

offline_not_stale : (now : ℕ) (h : Host) → is_stale now (to_offline h) ≡ false
offline_not_stale now h = ground (arith, eq_iff "offline" "online")

run_once-update :
    (c : Conn) (url : String) (rows : Hosts)
    → c.up ≡ true
    → run_once c url rows ≡ (
      ok (if url == "" then [] else map notice (select (is_stale c.now) rows)),
      update_where (is_stale c.now) to_offline rows,
    )
unfolding run_once mark_offline
run_once-update c url rows up =
    ground (arith, up, notify_all-map url (select (is_stale c.now) rows))

In-map-notice :
    (n : Notice) (hs : Hosts) → In n (map notice hs) → (h : Host) × In h hs × (n ≡ notice h)
In-map-notice n [] i = absurd i
In-map-notice n (h ∷ hs) (inl e) = (h, inl refl, e)
In-map-notice n (h ∷ hs) (inr i) = let (x, j, e) = In-map-notice n hs i in (x, inr j, e)

notice-In-map : (h : Host) (hs : Hosts) → In h hs → In (notice h) (map notice hs)
notice-In-map h [] i = i
notice-In-map h (x ∷ hs) (inl e) = inl (ap notice e)
notice-In-map h (x ∷ hs) (inr i) = inr (notice-In-map h hs i)

-- What a sweep that the database answers makes of the table: a silent host is marked offline in
-- its row, any other is as it was, and there is no further row.
pub record IsSwept (now : ℕ) (rows rows' : Hosts) : Type 0 where
  pub marked : (h : Host) → In h rows → IsSilent now h → In (to_offline h) rows'
  pub spared : (h : Host) → In h rows → ¬ IsSilent now h → In h rows'
  pub only :
      (h' : Host)
      → In h' rows'
      → (h : Host) × In h rows
        × ((IsSilent now h × (h' ≡ to_offline h)) ⊎ (¬ IsSilent now h × (h' ≡ h)))

module _ (now : ℕ) where
  not-IsSilent : (h : Host) → is_stale now h ≡ false → ¬ IsSilent now h
  not-IsSilent h n s = absurd (cc (n, silent-stale now h s))

  fresh_of_not : (h : Host) → ¬ IsSilent now h → is_stale now h ≡ false
  fresh_of_not h n = elim (Bool-cases (is_stale now h)) [
    | inl y ↦ absurd (n (stale-IsSilent now h y))
    | inr f ↦ f
  ]

  update-IsSwept : (rows : Hosts) → IsSwept now rows (update_where (is_stale now) to_offline rows)
  update-IsSwept rows = record {
    marked = λ h i s. rw (silent-stale now h s) at (update-In (is_stale now) to_offline h rows i);
    spared = λ h i n. rw (fresh_of_not h n) at (update-In (is_stale now) to_offline h rows i);
    only = λ h' i.
        let (h, j, e) = In-update (is_stale now) to_offline h' rows i in (h, j, origin h h' e);
  }
    where
      origin :
          (h h' : Host)
          → h' ≡ (if is_stale now h then to_offline h else h)
          → (IsSilent now h × (h' ≡ to_offline h)) ⊎ (¬ IsSilent now h × (h' ≡ h))
      origin h h' e = elim (Bool-cases (is_stale now h)) [
        | inl y ↦ inl (stale-IsSilent now h y, rw y at e)
        | inr n ↦ inr (not-IsSilent h n, rw n at e)
      ]

-- While the database answers and a webhook is configured, one sweep marks exactly the silent hosts
-- offline, leaves all others, and posts a notice for exactly the hosts that it marks.
pub run_once_exact :
    (c : Conn) (url : String) (rows : Hosts)
    → c.up ≡ true
    → (url == "") ≡ false
    → (ns : List Notice) × ((run_once c url rows).0 ≡ ok ns)
      × IsSwept c.now rows (run_once c url rows).1
      × ((n : Notice) → In n ns ↔ ((h : Host) × In h rows × IsSilent c.now h × (n ≡ notice h)))
run_once_exact c url rows up hook = (
  map notice (select (is_stale c.now) rows),
  ap (λ r. r.0) (run_once-update c url rows up) ∙ rw hook,
  rw (run_once-update c url rows up) (update-IsSwept c.now rows),
  λ n. (
    (λ i. posted n i),
    (λ p. rw p.3 (
        notice-In-map p.0 (select (is_stale c.now) rows)
          (In-select (is_stale c.now) p.0 rows p.1 (silent-stale c.now p.0 p.2)))),
  ),
)
  where
    posted :
        (n : Notice)
        → In n (map notice (select (is_stale c.now) rows))
        → (h : Host) × In h rows × IsSilent c.now h × (n ≡ notice h)
    posted n i =
        let (h, j, e) = In-map-notice n (select (is_stale c.now) rows) i in
        let (k, y) = select-In (is_stale c.now) h rows j in (h, k, stale-IsSilent c.now h y, e)

-- A host that a sweep has marked is marked again, and notified about again, only after something
-- else wrote to it: every host that a second sweep finds silent stood unchanged in the table of the
-- first, which did not find it silent.
pub second_sweep_fresh :
    (c c' : Conn) (url : String) (rows : Hosts) (h : Host)
    → c.up ≡ true
    → In h (run_once c url rows).1
    → IsSilent c'.now h
    → In h rows × (¬ IsSilent c.now h)
second_sweep_fresh c c' url rows h up i s =
    let swept : IsSwept c.now rows (run_once c url rows).1 =
      rw (run_once-update c url rows up) (update-IsSwept c.now rows) in
    let (h₀, j, origin) = swept.only h i in
    either origin (λ p. absurd (marked_not_silent h h₀ p.1 s)) (λ p. (rw p.1 j, rw p.1 p.0))
  where
    marked_not_silent : (x y : Host) → x ≡ to_offline y → IsSilent c'.now x → ⊥
    marked_not_silent x y e q = ground (arith, e, q.online, eq_iff "offline" "online")

beat_not-IsSilent :
    (c c' : Conn) (id : String) (t : ℕ) (rows : Hosts) (h : Host)
    → c.up ≡ true
    → c'.now ≤ t + heartbeat_timeout
    → In h (update_heartbeat c id t "online" rows).1
    → h.id ≡ id
    → ¬ IsSilent c'.now h
unfolding update_heartbeat
beat_not-IsSilent c c' id t rows h up near i e s =
    let (h₀, j, o) = In-update (has_id id) (beat t "online") h rows (rw up at i) in
    let (u, p, lt) = s.last in ground (arith, o, e, p, lt, near, eq_iff h₀.id id)

-- A heartbeat keeps its host online: a sweep at most 90 seconds after the time that was recorded
-- does not mark any row of that host.
pub heartbeat_spares :
    (c c' : Conn) (url id : String) (t : ℕ) (rows : Hosts) (h : Host)
    → c.up ≡ true
    → c'.up ≡ true
    → c'.now ≤ t + heartbeat_timeout
    → In h (update_heartbeat c id t "online" rows).1
    → h.id ≡ id
    → In h (run_once c' url (update_heartbeat c id t "online" rows).1).1
heartbeat_spares c c' url id t rows h up up' near i e =
    let swept : IsSwept c'.now (update_heartbeat c id t "online" rows).1
        (run_once c' url (update_heartbeat c id t "online" rows).1).1 =
      rw (run_once-update c' url (update_heartbeat c id t "online" rows).1 up')
        (update-IsSwept c'.now (update_heartbeat c id t "online" rows).1) in
    swept.spared h i (beat_not-IsSilent c c' id t rows h up near i e)
