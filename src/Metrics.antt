-- ===== src/Metrics.antt =====
-- internal/storage/victoriametrics/writer.go: a batch of metrics as samples of the exposition format.
-- `V` is the type of a value, which is printed by %g; the quotes of %q are the format's too.
pub mod Samples
use praetor_server.Http.{Client, WriteError, marshal_failed, post, base_url}
use praetor_server.Prelude.{Bool, Bytes, codes, if◌then◌else◌, ◌++◌}
use praetor_server.Prelude.{
  ℕ, ◌/◌, String, Bool, Option, none, some, List, [], ◌∷◌, map, Bytes, codes, if◌then◌else◌,
  nat_beq,
}

-- strings.ReplaceAll for one byte by another
unfoldable pub replace_all : ℕ → ℕ → Bytes → Bytes
replace_all old new [] = []
replace_all old new (c ∷ s) =
    let rest = replace_all old new s in if nat_beq c old then new ∷ rest else c ∷ rest

abbrev pub sanitize_metric_name : Bytes → Bytes
sanitize_metric_name name = replace_all b'.' b'_' name

abbrev pub sanitize_label_name : Bytes → Bytes
sanitize_label_name name = replace_all b'-' b'_' (replace_all b'.' b'_' name)

module _ (V : Type 0) where
  -- The labels are a map, in the order in which Go ranges over it.
  pub record Metric : Type 0 where
    pub name : Bytes
    pub labels : List (Bytes × String)
    pub value : V
    pub timestamp : Option ℕ

  -- one line of the request
  pub record Sample : Type 0 where
    pub name : Bytes
    pub labels : List (Bytes × String)
    pub value : V
    pub timestamp_ms : ℕ

abbrev time_of : ℕ → Option ℕ → ℕ
time_of now none = now
time_of now (some t) = t

abbrev pub label_of : Bytes × String → Bytes × String
label_of (key, value) = (sanitize_label_name key, value)

module _ {V : Type 0} where
  -- One reading of the clock stands for all of a batch.
  abbrev pub sample_of : ℕ → String → Metric V → Sample V
  sample_of now host_id m = record {
    name = sanitize_metric_name m.name;
    labels = (codes "host_id", host_id) ∷ map label_of m.labels;
    value = m.value;
    timestamp_ms = time_of now m.timestamp / 1_000_000;
  }

  -- The lines that Write posts, and `none` when it posts nothing.
  unfoldable pub write : ℕ → String → List (Metric V) → Option (List (Sample V))
  write now host_id [] = none
  write now host_id (m ∷ ms) = some (map (sample_of now host_id) (m ∷ ms))

  abbrev pub post_samples :
      Client
      → Bytes
      → Option (List (Sample V))
      → Option WriteError × Option (Bytes × List (Sample V))
  post_samples client base none = (none, none)
  post_samples client base (some samples) =
      post client (base ++ codes "/api/v1/import/prometheus") samples

  -- Write as a whole
  unfoldable pub write_batch :
      Client
      → Bytes
      → ℕ
      → String
      → List (Metric V)
      → Option WriteError × Option (Bytes × List (Sample V))
  write_batch client url now host_id batch =
      post_samples client (base_url url) (write now host_id batch)
