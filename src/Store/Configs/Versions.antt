-- ===== src/Store/Configs/Versions.antt =====
-- What Get finds after SetField.
use praetor_server.Prelude.{
  ℕ, ◌+◌, String, ◌≡◌, refl, Bool, true, Option, none, some, List, [], ◌∷◌, arith, Option-cases,
  Bool-cases, eq_iff, ◌==◌, string_eq, ℤ, if◌then◌else◌, ◌∙◌, fits, inl, inr,
}
use praetor_server.Result.{ok, err, Conn, Result}
use praetor_server.Sql.{select, first, exists_where, first-append, first-update_key, exists-first}
use praetor_server.Store.Configs.{
  HostConfig, Field, get, set_field, set_allowed, upsert_field, allowed, with_field, bumped,
  fresh_row, has_host, default_config, heartbeat_interval, metric_collection_interval,
}

-- the configuration with one field set, at the next version
abbrev pub set_to : ℕ → Field → ℤ → HostConfig → HostConfig
set_to now f v c =
    with_field f v (record c { config_version = c.config_version + 1; updated_at = now })

abbrev pub map_ok : (HostConfig → HostConfig) → Result HostConfig → Result HostConfig
map_ok f (ok c) = ok (f c)
map_ok f (err e) = err e

bumped_host :
    (now : ℕ) (f : Field) (v : ℤ) (r : HostConfig) → (bumped now f v r).host_id ≡ r.host_id
bumped_host now heartbeat_interval v r = refl
bumped_host now metric_collection_interval v r = refl

fresh_host : (now : ℕ) (h : String) (f : Field) (v : ℤ) → (fresh_row now h f v).host_id ≡ h
fresh_host now h heartbeat_interval v = refl
fresh_host now h metric_collection_interval v = refl

abbrev find : String → List HostConfig → Option HostConfig
find j rows = first (select (has_host j) rows)

find-fresh :
    (now : ℕ) (h j : String) (f : Field) (v : ℤ)
    → first (select (has_host j) (fresh_row now h f v ∷ []))
      ≡ (if h == j then some (fresh_row now h f v) else none)
unfolding select
find-fresh now h j f v = ground (arith, fresh_host now h f v)

set_default :
    (now : ℕ) (h : String) (f : Field) (v : ℤ)
    → set_to now f v (default_config h) ≡ fresh_row now h f v
set_default now h heartbeat_interval v = refl
set_default now h metric_collection_interval v = refl

find-here :
    (j : String) (rows : List HostConfig) (r : HostConfig)
    → find j rows ≡ some r
    → exists_where (has_host j) rows ≡ true
find-here j rows r e = exists-first (has_host j) rows ∙ ground (arith, e)

module _ (c c' : Conn) (hosts : String → Bool) (host_id : String) (v : ℤ)
    (rows : List HostConfig) where
  get-upsert_field :
      (f : Field) (j : String)
      → (upsert_field c hosts host_id f v rows).0 ≡ ok tt
      → c'.up ≡ true
      → get c' j (upsert_field c hosts host_id f v rows).1
        ≡ (if host_id == j then map_ok (set_to c.now f v) (get c' j rows) else get c' j rows)
  unfolding get upsert_field
  get-upsert_field f j done up =
      let old =
        first-update_key (λ r. r.host_id) (bumped c.now f v) (bumped_host c.now f v) host_id j
          rows in
      let new = first-append (has_host j) rows (fresh_row c.now host_id f v ∷ []) in
      elim (Option-cases (find host_id rows)) [
        | inl n ↦ ground (
          arith,
          done,
          up,
          n,
          new,
          find-fresh c.now host_id j f v,
          exists-first (has_host host_id) rows,
          eq_iff host_id j,
          set_default c.now host_id f v,
        )
        | inr (r, y) ↦
            ground (arith, done, up, y, old, exists-first (has_host host_id) rows, eq_iff host_id j)
      ]

  -- A SetField that works sets the one column it names, moves the version on by one, and leaves the
  -- other columns and all other hosts as they were; a host without a row starts from the defaults, at version 0.
  pub get-set_field :
      (field : String) (j : String)
      → (set_field c hosts host_id field v rows).0 ≡ ok tt
      → c'.up ≡ true
      → (f : Field) × (allowed field ≡ some f)
        × (fits 31 v ≡ true)
        × (get c' j (set_field c hosts host_id field v rows).1
            ≡ (if host_id == j then map_ok (set_to c.now f v) (get c' j rows) else get c' j rows))
  unfolding set_field set_allowed
  get-set_field field j done up = elim (Option-cases (allowed field)) [
    | inl n ↦ absurd (ground (arith, n, done))
    | inr (f, y) ↦ elim (Bool-cases (fits 31 v)) [
      | inr n ↦ absurd (ground (arith, y, n, done))
      | inl k ↦ (f, y, k, rw (y, k) (get-upsert_field f j (ground (arith, y, k, done)) up))
    ]
  ]
