-- ===== src/Store/Configs/Refinement/Rows.antt =====
-- The rows of host_configs: their versions, and the map that they stand for.
use praetor_server.Prelude.{
  All-In, ℕ, ◌≤◌, ℤ, String, ◌≡◌, not, List, [], ◌∷◌, arith, string_eq, nat_beq, Option-cases,
  Bool-cases, inl, inr, All,
}
use praetor_server.Sql.{select, first, update_where, exists_where, exists-first, first-select-In}
use praetor_server.Store.Configs.{
  HostConfig, Field, has_host, bumped, fresh_row, row_or_default, heartbeat_interval,
  metric_collection_interval,
}
use praetor_server.Store.Configs.Abstract.{Map}

-- every row has been written by a SetField
abbrev pub HasVersions : List HostConfig → Type 0
HasVersions = All (λ r. 1 ≤ r.config_version)

-- what Get returns for each host
abbrev pub view : List HostConfig → Map
view rows host = row_or_default host (first (select (has_host host) rows))

pub version_zero :
    (rows : List HostConfig) (host : String)
    → HasVersions rows
    → nat_beq (view rows host).config_version 0 ≡ not (exists_where (has_host host) rows)
version_zero rows host h = elim (Option-cases (first (select (has_host host) rows))) [
  | inl n ↦ ground (arith, n, exists-first (has_host host) rows)
  | inr (r, e) ↦
      let (i, _) = first-select-In (has_host host) r rows e in
      ground
        (arith, e, exists-first (has_host host) rows, All-In (λ r. 1 ≤ r.config_version) r rows h i)
]

bumped_version :
    (now : ℕ) (f : Field) (v : ℤ) (r : HostConfig) → 1 ≤ (bumped now f v r).config_version
bumped_version now heartbeat_interval v r = omega arith
bumped_version now metric_collection_interval v r = omega arith

pub fresh_version :
    (now : ℕ) (host : String) (f : Field) (v : ℤ) → 1 ≤ (fresh_row now host f v).config_version
fresh_version now host heartbeat_interval v = omega arith
fresh_version now host metric_collection_interval v = omega arith

pub update_versions :
    (now : ℕ) (f : Field) (v : ℤ) (host : String) (rows : List HostConfig)
    → HasVersions rows
    → HasVersions (update_where (has_host host) (bumped now f v) rows)
unfolding update_where
update_versions now f v host [] h = tt
update_versions now f v host (r ∷ rows) (p, h) = (
  elim (Bool-cases (has_host host r)) [ inl y ↦ rw y (bumped_version now f v r) | inr n ↦ rw n p ],
  update_versions now f v host rows h,
)
