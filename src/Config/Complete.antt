-- ===== src/Config/Complete.antt =====
-- What a configuration that was loaded has.
use praetor_server.Prelude.{
  String, ◌≡◌, ◌≢◌, refl, subst, sym, false, some, List, [], ◌∷◌, arith, Bool-cases, eq_iff, ◌==◌,
  string_eq, inl, inr,
}
use praetor_server.Config.{
  Config, loaded, with_defaults, checked, load, names_or_default, or_default,
}

-- All that the server needs is there; only the alert webhook may be empty.
pub record IsComplete (cfg : Config) : Type 0 where
  pub grpc_listen : cfg.grpc_listen ≢ ""
  pub http_listen : cfg.http_listen ≢ ""
  pub data_dir : cfg.data_dir ≢ ""
  pub org_id : cfg.org_id ≢ ""
  pub api_key : cfg.api_key ≢ ""
  pub postgres_dsn : cfg.postgres_dsn ≢ ""
  pub victoriametrics_url : cfg.victoriametrics_url ≢ ""
  pub loki_url : cfg.loki_url ≢ ""
  pub dns_names : cfg.grpc_server_dns_names ≢ []

or_default-full : (default s : String) → default ≢ "" → or_default default s ≢ ""
or_default-full default s ne = elim (Bool-cases (s == "")) [
  | inl y ↦ rw y ne
  | inr n ↦ rw n (λ e. ground (arith, n, eq_iff s "", e))
]

names-full : (ns : List String) → names_or_default ns ≢ []
names-full [] e = absurd (ground (arith, e))
names-full (n ∷ ns) e = absurd (ground (arith, e))

checked-loaded :
    (cfg out : Config)
    → checked cfg ≡ loaded out
    → (out ≡ cfg)
      × (cfg.api_key ≢ "")
      × (cfg.postgres_dsn ≢ "")
      × (cfg.victoriametrics_url ≢ "")
      × (cfg.loki_url ≢ "")
unfolding checked
checked-loaded cfg out e = (
  ground (arith, e),
  (λ x. ground (arith, e, x, eq_iff cfg.api_key "")),
  (λ x. ground (arith, e, x, eq_iff cfg.postgres_dsn "")),
  (λ x. ground (arith, e, x, eq_iff cfg.victoriametrics_url "")),
  (λ x. ground (arith, e, x, eq_iff cfg.loki_url "")),
)

text_ne : (a : String) → (a == "") ≡ false → a ≢ ""
text_ne a n e = ground (arith, n, eq_iff a "", e)

defaults-IsComplete :
    (file : Config)
    → file.api_key ≢ ""
    → file.postgres_dsn ≢ ""
    → file.victoriametrics_url ≢ ""
    → file.loki_url ≢ ""
    → IsComplete (with_defaults file)
defaults-IsComplete file k p v l = record {
  grpc_listen = or_default-full ":8443" file.grpc_listen (text_ne ":8443" refl);
  http_listen = or_default-full ":8080" file.http_listen (text_ne ":8080" refl);
  data_dir = or_default-full "./tmp/data" file.data_dir (text_ne "./tmp/data" refl);
  org_id = or_default-full "default" file.org_id (text_ne "default" refl);
  api_key = k;
  postgres_dsn = p;
  victoriametrics_url = v;
  loki_url = l;
  dns_names = names-full file.grpc_server_dns_names;
}

-- A configuration that Load returns is the one of the file with the defaults filled in, and has
-- everything that the server needs: addresses, a data directory, an organisation, DNS names, the API
-- key, and the three addresses of its databases.
pub load-IsComplete :
    (file out : Config)
    → load (some file) ≡ loaded out
    → (out ≡ with_defaults file) × IsComplete out
unfolding load
load-IsComplete file out e =
    let (same, k, p, v, l) = checked-loaded (with_defaults file) out e in
    (same, subst IsComplete (sym same) (defaults-IsComplete file k p v l))
