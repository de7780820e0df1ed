-- ===== src/Store/Hosts/Rows.antt =====
-- What a lookup finds after Upsert and UpdateHeartbeat.
use praetor_server.Prelude.{
  ℕ, String, ◌≡◌, ◌≢◌, refl, true, Option, none, some, [], ◌∷◌, ◌++◌, if◌then◌else◌, arith, ◌==◌,
  string_eq, eq_iff, Option-cases, ◌∙◌, inl, inr,
}
use mathlib.Core.Option
use praetor_server.Result.{Result, ok, err, Conn}
use praetor_server.Sql.{
  select, first, update_where, first-append, or_row, exists-first, first-update_key,
  first-select-In,
}
use praetor_server.Store.Hosts.{
  Host, Hosts, upsert, update_heartbeat, get_by_id, has_id, merged, beat,
}

abbrev pub map_ok : (Host → Host) → Result Host → Result Host
map_ok f (ok h) = ok (f h)
map_ok f (err e) = err e

-- UpdateHeartbeat sets the time and the status of the one host and leaves all others as they were;
-- an unknown host stays unknown.
pub get-update_heartbeat :
    (c c' : Conn) (id j : String) (t : ℕ) (status : String) (rows : Hosts)
    → c.up ≡ true
    → get_by_id c' j (update_heartbeat c id t status rows).1
      ≡ (if id == j then map_ok (beat t status) (get_by_id c' j rows) else get_by_id c' j rows)
unfolding get_by_id update_heartbeat
get-update_heartbeat c c' id j t status rows up =
    ground (arith, up, first-update_key (λ h. h.id) (beat t status) (λ h. refl) id j rows)

-- first_seen_at of the row with the id, or the time of the INSERT
abbrev pub seen : ℕ → Option Host → ℕ
seen now none = now
seen now (some r) = r.first_seen_at

abbrev find : String → Hosts → Option Host
find id rows = first (select (has_id id) rows)

find-id : (id : String) (rows : Hosts) (r : Host) → find id rows ≡ some r → r.id ≡ id
find-id id rows r e = (eq_iff r.id id).0 (first-select-In (has_id id) r rows e).1

-- The row that an Upsert leaves in place of the one that was found.
module _ (h : Host) (rows : Hosts) where
  find-merged :
      (j : String)
      → find j (update_where (has_id h.id) (merged h) rows)
        ≡ (if h.id == j then Option.map (merged h) (find j rows) else find j rows)
  find-merged j = first-update_key (λ r. r.id) (merged h) (λ r. refl) h.id j rows

  find-inserted :
      (now : ℕ) (j : String)
      → find j (rows ++ record h { first_seen_at = now } ∷ [])
        ≡ or_row (find j rows) (if h.id == j then some (record h { first_seen_at = now }) else none)
  unfolding select
  find-inserted now j =
      first-append (has_id j) rows (record h { first_seen_at = now } ∷ []) ∙ ground arith

module _ (c c' : Conn) (h : Host) (rows : Hosts) where
  -- After a successful Upsert the row of the host has the fields that were given, but for
  -- first_seen_at: that of the row that was there, or the time of the first insert.
  pub get-upsert :
      (upsert c h rows).0 ≡ ok tt
      → c'.up ≡ true
      → get_by_id c' h.id (upsert c h rows).1
        ≡ ok (record h { first_seen_at = seen c.now (first (select (has_id h.id) rows)) })
  unfolding get_by_id upsert
  get-upsert done up = elim (Option-cases (find h.id rows)) [
    | inl absent ↦ ground (
      arith,
      done,
      up,
      absent,
      find-merged h rows h.id,
      find-inserted h rows c.now h.id,
      eq_iff h.id h.id,
      exists-first (has_id h.id) rows,
    )
    | inr (r, there) ↦ ground (
      arith,
      done,
      up,
      there,
      find-id h.id rows r there,
      find-merged h rows h.id,
      eq_iff h.id h.id,
      exists-first (has_id h.id) rows,
    )
  ]

  -- Upsert of one host changes no other.
  pub get-upsert_ne :
      (j : String) → h.id ≢ j → get_by_id c' j (upsert c h rows).1 ≡ get_by_id c' j rows
  unfolding get_by_id upsert
  get-upsert_ne j ne = ground (
    arith,
    ne,
    find-merged h rows j,
    find-inserted h rows c.now j,
    eq_iff h.id j,
    exists-first (has_id h.id) rows,
  )
