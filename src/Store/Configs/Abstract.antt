-- ===== src/Store/Configs/Abstract.antt =====
-- The table host_configs as a map from hosts to configurations.
use praetor_server.Prelude.{
  ℕ, ℤ, String, Bool, Option, none, some, List, [], ◌∷◌, fits, if◌then◌else◌, ◌==◌, string_eq,
  nat_beq,
}
use praetor_server.Result.{
  Result, ok, err, Conn, unavailable, foreign_key_violation, not_updatable, out_of_range, Error,
}
use praetor_server.Store.Configs.{HostConfig, Field, get, set_field, allowed}
use praetor_server.Store.Configs.Versions.{set_to}

-- One call of the store, with what the database does then.
pub data Op : Type 0 where
  set : Conn → (String → Bool) → String → String → ℤ → Op
  read : Conn → String → Op

pub data Answer : Type 0 where
  stored : Result (Unit {0}) → Answer
  found : Result HostConfig → Answer

abbrev pub run_op : Op → List HostConfig → Answer × List HostConfig
run_op (set c hosts host field v) rows =
    let (r, after) = set_field c hosts host field v rows in (stored r, after)
run_op (read c host) rows = (found (get c host rows), rows)

-- The answers of the store to calls one after the other.
unfoldable pub run : List Op → List HostConfig → List Answer
run [] rows = []
run (op ∷ ops) rows = let (a, after) = run_op op rows in a ∷ run ops after

-- The specification: a map in which every host has a configuration. Version 0 is that of a host that
-- was never set.
abbrev pub Map : Type 0
Map = String → HostConfig

abbrev pub put : String → HostConfig → Map → Map
put host cfg m asked = if host == asked then cfg else m asked

abbrev pub refusal : Conn → (String → Bool) → String → ℤ → Map → Option Error
refusal c hosts host v m =
    if fits 31 v
    then (if c.up
        then (if nat_beq (m host).config_version 0
            then (if hosts host then none else some foreign_key_violation)
            else none)
        else some unavailable)
    else some out_of_range

abbrev pub put_unless : Option Error → ℕ → String → Field → ℤ → Map → Result (Unit {0}) × Map
put_unless (some e) now host f v m = (err e, m)
put_unless none now host f v m = (ok tt, put host (set_to now f v (m host)) m)

abbrev pub set_spec :
    Conn → (String → Bool) → String → Option Field → ℤ → Map → Result (Unit {0}) × Map
set_spec c hosts host none v m = (err not_updatable, m)
set_spec c hosts host (some f) v m = put_unless (refusal c hosts host v m) c.now host f v m

abbrev pub spec_op : Op → Map → Answer × Map
spec_op (set c hosts host field v) m =
    let (r, after) = set_spec c hosts host (allowed field) v m in (stored r, after)
spec_op (read c host) m = (found (if c.up then ok (m host) else err unavailable), m)

unfoldable pub run_spec : List Op → Map → List Answer
run_spec [] m = []
run_spec (op ∷ ops) m = let (a, after) = spec_op op m in a ∷ run_spec ops after
