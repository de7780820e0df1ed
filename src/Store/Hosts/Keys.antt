-- ===== src/Store/Hosts/Keys.antt =====
-- The keys of the table hosts: one row for an id, and one for a machine of an organisation.
use praetor_server.Prelude.{
  ℕ, ◌≤◌, String, ◌≡◌, true, false, [], ◌∷◌, ◌++◌, if◌then◌else◌, arith, string_eq, eq_iff,
  Bool-cases, Option-cases, inl, List, inr,
}
use praetor_server.Result.{Conn}
use praetor_server.Sql.{
  update_where, exists_where, count_where, count-append, count-update-le, count-update_mono,
  exists-false, exists-count, count-none,
}
use praetor_server.Store.Hosts.{
  Host, Hosts, upsert, update_heartbeat, mark_offline, has_id, has_machine, clashes, merged, beat,
  is_stale, to_offline,
}

pub record HasKeys (rows : Hosts) : Type 0 where
  pub by_id : (id : String) → count_where (has_id id) rows ≤ 1
  pub by_machine : (m org : String) → count_where (has_machine m org) rows ≤ 1

module _ (h : Host) (rows : Hosts) (keys : HasKeys rows)
    (clear : exists_where (clashes h) rows ≡ false) where
  merge_id :
      (id : String) → count_where (has_id id) (update_where (has_id h.id) (merged h) rows) ≤ 1
  merge_id id =
      omega (
        arith,
        keys.by_id id,
        count-update-le (has_id h.id) (merged h) (has_id id) rows (λ r y z. z),
      )

  -- a row that has the machine of `h` and is no other row's
  clear_row :
      (m org : String) (r : Host)
      → has_machine m org h ≡ true
      → clashes h r ≡ false
      → has_machine m org (if has_id h.id r then merged h r else r) ≡ true
      → has_id h.id r ≡ true
  clear_row m org r e c y = elim (Option-cases h.machine_id) [
    | inl n ↦ ground (arith, n)
    | inr (k, s) ↦ ground (arith, s, eq_iff k m, eq_iff h.org_id org)
  ]

  merge_machine :
      (m org : String)
      → count_where (has_machine m org) (update_where (has_id h.id) (merged h) rows) ≤ 1
  merge_machine m org = elim (Bool-cases (has_machine m org h)) [
    | inl e ↦ omega (
      arith,
      keys.by_id h.id,
      count-update_mono (has_machine m org) (has_id h.id) (merged h) (has_id h.id) rows
          (λ r i y. clear_row m org r e (exists-false (clashes h) r rows clear i) y),
    )
    | inr n ↦ omega (
      arith,
      keys.by_machine m org,
      count-update-le (has_id h.id) (merged h) (has_machine m org) rows
          (λ r y z. ground (arith, n)),
    )
  ]

  append_id :
      (t : ℕ) (id : String)
      → exists_where (has_id h.id) rows ≡ false
      → count_where (has_id id) (rows ++ record h { first_seen_at = t } ∷ []) ≤ 1
  unfolding count_where
  append_id t id absent = ground (
    arith,
    eq_iff h.id id,
    keys.by_id id,
    exists-count (has_id h.id) rows absent,
    count-append (has_id id) rows (record h { first_seen_at = t } ∷ []),
  )

  free_row :
      (m org : String) (r : Host)
      → has_machine m org h ≡ true
      → clashes h r ≡ false
      → has_id h.id r ≡ false
      → has_machine m org r ≡ false
  free_row m org r e c n = elim (Option-cases h.machine_id) [
    | inl x ↦ ground (arith, x)
    | inr (k, s) ↦ ground (arith, s, eq_iff k m, eq_iff h.org_id org)
  ]

  -- no other row has the machine of a new host
  machine_free :
      (m org : String)
      → has_machine m org h ≡ true
      → exists_where (has_id h.id) rows ≡ false
      → count_where (has_machine m org) rows ≡ 0
  machine_free m org e absent = count-none (has_machine m org) rows λ r i.
      free_row m org r e (exists-false (clashes h) r rows clear i)
        (exists-false (has_id h.id) r rows absent i)

  append_machine :
      (t : ℕ) (m org : String)
      → exists_where (has_id h.id) rows ≡ false
      → count_where (has_machine m org) (rows ++ record h { first_seen_at = t } ∷ []) ≤ 1
  unfolding count_where
  append_machine t m org absent = ground (
    arith,
    keys.by_machine m org,
    machine_free m org,
    count-append (has_machine m org) rows (record h { first_seen_at = t } ∷ []),
  )

-- Upsert keeps the ids unique, and so the machines of each organisation, whether it inserts,
-- updates or is refused.
pub upsert-HasKeys :
    (c : Conn) (h : Host) (rows : Hosts) → HasKeys rows → HasKeys (upsert c h rows).1
unfolding upsert
upsert-HasKeys c h rows keys = elim (Bool-cases (exists_where (clashes h) rows)) [
  | inl y ↦ record {
    by_id = λ id. ground (arith, y, keys.by_id id);
    by_machine = λ m org. ground (arith, y, keys.by_machine m org);
  }
  | inr n ↦ record {
    by_id = λ id.
        ground
          (arith, n, keys.by_id id, merge_id h rows keys n id, append_id h rows keys n c.now id);
    by_machine = λ m org. ground (
      arith,
      n,
      keys.by_machine m org,
      merge_machine h rows keys n m org,
      append_machine h rows keys n c.now m org,
    );
  }
]

beat-HasKeys :
    (c : Conn) (id : String) (t : ℕ) (status : String) (rows : Hosts)
    → HasKeys rows
    → HasKeys (update_heartbeat c id t status rows).1
unfolding update_heartbeat
beat-HasKeys c id t status rows keys = record {
  by_id = λ j. ground (
    arith,
    keys.by_id j,
    count-update-le (has_id id) (beat t status) (has_id j) rows (λ r y z. z),
  );
  by_machine = λ m org. ground (
    arith,
    keys.by_machine m org,
    count-update-le (has_id id) (beat t status) (has_machine m org) rows (λ r y z. z),
  );
}

sweep-HasKeys : (c : Conn) (rows : Hosts) → HasKeys rows → HasKeys (mark_offline c rows).1
unfolding mark_offline
sweep-HasKeys c rows keys = record {
  by_id = λ j. ground (
    arith,
    keys.by_id j,
    count-update-le (is_stale c.now) to_offline (has_id j) rows (λ r y z. z),
  );
  by_machine = λ m org. ground (
    arith,
    keys.by_machine m org,
    count-update-le (is_stale c.now) to_offline (has_machine m org) rows (λ r y z. z),
  );
}

-- What the server writes to the table.
pub data Op : Type 0 where
  upserts : Host → Op
  beats : String → ℕ → String → Op
  sweeps : Op

unfoldable pub step : Conn → Op → Hosts → Hosts
step c (upserts h) rows = (upsert c h rows).1
step c (beats id t status) rows = (update_heartbeat c id t status rows).1
step c sweeps rows = (mark_offline c rows).1

unfoldable pub run : List (Conn × Op) → Hosts → Hosts
unfolding step
run [] rows = rows
run ((c, op) ∷ rest) rows = run rest (step c op rows)

step-HasKeys : (c : Conn) (op : Op) (rows : Hosts) → HasKeys rows → HasKeys (step c op rows)
unfolding step
step-HasKeys c (upserts h) rows keys = upsert-HasKeys c h rows keys
step-HasKeys c (beats id t status) rows keys = beat-HasKeys c id t status rows keys
step-HasKeys c sweeps rows keys = sweep-HasKeys c rows keys

run_from-HasKeys : (hs : List (Conn × Op)) (rows : Hosts) → HasKeys rows → HasKeys (run hs rows)
unfolding run
run_from-HasKeys [] rows keys = keys
run_from-HasKeys ((c, op) ∷ rest) rows keys =
    run_from-HasKeys rest (step c op rows) (step-HasKeys c op rows keys)

-- Whatever the server writes to the table hosts from when it is empty, with whatever failures, an
-- id stands in one row at most, and so does a machine of an organisation.
pub run-HasKeys : (hs : List (Conn × Op)) → HasKeys (run hs [])
unfolding count_where
run-HasKeys hs =
    run_from-HasKeys hs [] (record { by_id = λ id. omega arith; by_machine = λ m org. omega arith })
