-- ===== src/Store/Configs/Refinement.antt =====
-- The statements on host_configs against the specification as a map.
mod Rows
use Rows.{HasVersions, view, version_zero, fresh_version, update_versions}
use mathlib.Core.Path.{fun_ext}
use praetor_server.Prelude.{
  All-In, ℕ, ◌≤◌, ℤ, String, ◌≡◌, refl, sym, ap, ◌∙◌, Bool, true, not, Option, none, some, List, [],
  ◌∷◌, arith, fits, if◌then◌else◌, ◌==◌, string_eq, nat_beq, Option-cases, Bool-cases, inl, inr,
  All, All-append, eq_iff,
}
use praetor_server.Result.{ok, err, Conn, Error, unavailable, Result-cases}
use praetor_server.Sql.{select, first, update_where, exists_where, exists-first, first-select-In}
use praetor_server.Store.Configs.{
  HostConfig, Field, get, set_field, set_allowed, upsert_field, allowed, has_host, default_config,
  bumped, fresh_row, row_or_default, heartbeat_interval, metric_collection_interval,
}
use praetor_server.Store.Configs.Versions.{set_to, map_ok, get-set_field}
use praetor_server.Store.Configs.Abstract.{
  set_spec, refusal, stored, found, Op, set, read, run, run_spec, Map, put, set_spec,
}

abbrev awake : Conn
awake = record { up = true; now = 0 }

module _ (c : Conn) (hosts : String → Bool) (host field : String) (v : ℤ)
    (rows : List HostConfig) where
  -- One call of SetField: the rows keep their versions, the answer is that of the specification, and
  -- an error changes no row.
  set_step :
      HasVersions rows
      → HasVersions (set_field c hosts host field v rows).1
        × ((set_field c hosts host field v rows).0
            ≡ (set_spec c hosts host (allowed field) v (view rows)).0)
        × ((e : Error)
            → (set_field c hosts host field v rows).0 ≡ err e
            → (set_field c hosts host field v rows).1 ≡ rows)
  unfolding set_field set_allowed upsert_field
  set_step h =
      let z = version_zero rows host h in
      elim (Option-cases (allowed field)) [
        | inl n ↦ (rw (n) h, ground (arith, n, z), λ e x. ground (arith, n))
        | inr (f, a) ↦ elim (Bool-cases (fits 31 v)) [
          | inr n ↦ (rw (a, n) h, ground (arith, a, n, z), λ e x. ground (arith, a, n))
          | inl k ↦ elim (Bool-cases c.up) [
            | inr n ↦ (rw (a, k, n) h, ground (arith, a, k, n, z), λ e x. ground (arith, a, k, n))
            | inl u ↦ elim (Bool-cases (exists_where (has_host host) rows)) [
              | inl y ↦ (
                rw (a, k, u, y) (update_versions c.now f v host rows h),
                ground (arith, a, k, u, y, z),
                λ e x. absurd (ground (arith, a, k, u, y, x)),
              )
              | inr n ↦ elim (Bool-cases (hosts host)) [
                | inl y ↦ (
                  rw (a, k, u, n, y)
                      (All-append (λ r. 1 ≤ r.config_version) rows (fresh_row c.now host f v ∷ []) h
                        (fresh_version c.now host f v, tt)),
                  ground (arith, a, k, u, n, y, z),
                  λ e x. absurd (ground (arith, a, k, u, n, y, x)),
                )
                | inr m ↦ (
                  rw (a, k, u, n, m) h,
                  ground (arith, a, k, u, n, m, z),
                  λ e x. ground (arith, a, k, u, n, m),
                )
              ]
            ]
          ]
        ]
      ]

  set_versions : HasVersions rows → HasVersions (set_field c hosts host field v rows).1
  set_versions h = (set_step h).0

  set_result :
      HasVersions rows
      → (set_field c hosts host field v rows).0
        ≡ (set_spec c hosts host (allowed field) v (view rows)).0
  set_result h = (set_step h).1

  set_error :
      HasVersions rows
      → (e : Error) → (set_field c hosts host field v rows).0 ≡ err e
      → (set_field c hosts host field v rows).1 ≡ rows
  set_error h = (set_step h).2

  spec_error :
      (f : Option Field) (m : Map) (e : Error)
      → (set_spec c hosts host f v m).0 ≡ err e
      → (set_spec c hosts host f v m).1 ≡ m
  spec_error none m e h = refl
  spec_error (some f) m e h = elim (Option-cases (refusal c hosts host v m)) [
    | inl n ↦ absurd (ground (arith, n, h))
    | inr (x, r) ↦ rw r refl
  ]

  spec_ok :
      (f : Field) (m : Map)
      → (set_spec c hosts host (some f) v m).0 ≡ ok tt
      → (set_spec c hosts host (some f) v m).1 ≡ put host (set_to c.now f v (m host)) m
  spec_ok f m h = elim (Option-cases (refusal c hosts host v m)) [
    | inl n ↦ rw n refl
    | inr (x, r) ↦ absurd (ground (arith, r, h))
  ]

  set_at :
      (f : Field) (asked : String)
      → allowed field ≡ some f
      → (set_field c hosts host field v rows).0 ≡ ok tt
      → view (set_field c hosts host field v rows).1 asked
        ≡ put host (set_to c.now f v (view rows host)) (view rows) asked
  unfolding get
  set_at f asked a good =
      let (f', a', _, e) = get-set_field c awake hosts host v rows field asked good refl in
      let read_back : ok (view (set_field c hosts host field v rows).1 asked) ≡ (
          if host == asked
          then map_ok (set_to c.now f' v) (ok (view rows asked))
          else ok (view rows asked)) =
        e in
      ground (arith, a, a', read_back, eq_iff host asked)

  -- The statement does to the map what the specification says.
  set_view :
      HasVersions rows
      → view (set_field c hosts host field v rows).1
        ≡ (set_spec c hosts host (allowed field) v (view rows)).1
  unfolding get
  set_view h = elim (Result-cases (set_field c hosts host field v rows).0) [
    | inl (e, bad) ↦
        ap view (set_error h e bad)
        ∙ sym (spec_error (allowed field) (view rows) e (sym (set_result h) ∙ bad))
    | inr (u, good) ↦
        let (f, a, k, _) = get-set_field c awake hosts host v rows field host good refl in
        let spec : (set_spec c hosts host (some f) v (view rows)).0 ≡ ok tt =
          ap (λ o. (set_spec c hosts host o v (view rows)).0) (sym a)
          ∙ (sym (set_result h) ∙ good) in
        fun_ext (λ j. set_at f j a good)
        ∙ (sym (spec_ok f (view rows) spec)
            ∙ ap (λ o. (set_spec c hosts host o v (view rows)).1) (sym a))
  ]

answered :
    (c : Conn) (host : String) (rows : List HostConfig)
    → get c host rows ≡ (if c.up then ok (view rows host) else err unavailable)
unfolding get
answered c host rows = elim (Bool-cases c.up) [ inl y ↦ rw y refl | inr n ↦ rw n refl ]

run-run_spec :
    (ops : List Op) (rows : List HostConfig)
    → HasVersions rows
    → run ops rows ≡ run_spec ops (view rows)
unfolding run run_spec
run-run_spec [] rows h = refl
run-run_spec (read c host ∷ ops) rows h =
    ap (λ a. found a ∷ run ops rows) (answered c host rows)
    ∙ ap (λ rest. found (if c.up then ok (view rows host) else err unavailable) ∷ rest)
        (run-run_spec ops rows h)
run-run_spec (set c hosts host field v ∷ ops) rows h =
    let after = (set_field c hosts host field v rows).1 in
    let rest = run-run_spec ops after (set_versions c hosts host field v rows h) in
    ap (λ r. stored r ∷ run ops after) (set_result c hosts host field v rows h)
    ∙ ap (λ more. stored (set_spec c hosts host (allowed field) v (view rows)).0 ∷ more)
        (rest ∙ ap (run_spec ops) (set_view c hosts host field v rows h))

-- Whatever calls are made of the store from when its table is empty, and whatever the database does,
-- the answers, errors included, are those of the specification: a map from hosts to configurations
-- that starts with the defaults at version 0 and in which a call writes the entry of its host only.
pub run_refines : (ops : List Op) → run ops [] ≡ run_spec ops default_config
unfolding select
run_refines ops = run-run_spec ops [] tt
