-- ===== src/Config.antt =====
-- internal/config/config.go: the defaults and the checks of the configuration file.
pub mod Complete
use praetor_server.Prelude.{
  String, Option, none, some, List, [], ◌∷◌, if◌then◌else◌, ◌==◌, string_eq,
}

pub record Config : Type 0 where
  pub grpc_listen : String
  pub http_listen : String
  pub postgres_dsn : String
  pub victoriametrics_url : String
  pub loki_url : String
  pub data_dir : String
  pub grpc_server_dns_names : List String
  pub api_key : String
  pub org_id : String
  pub alert_webhook_url : String

pub data ConfigError : Type 0 where
  unreadable api_key_required postgres_dsn_required : ConfigError
  victoriametrics_url_required loki_url_required : ConfigError

pub data Loaded : Type 0 where
  loaded : Config → Loaded
  invalid : ConfigError → Loaded

abbrev pub or_default : String → String → String
or_default default s = if s == "" then default else s

abbrev pub names_or_default : List String → List String
names_or_default [] = "localhost" ∷ []
names_or_default (n ∷ ns) = n ∷ ns

abbrev pub with_defaults : Config → Config
with_defaults cfg = record cfg {
  grpc_listen = or_default ":8443" cfg.grpc_listen;
  http_listen = or_default ":8080" cfg.http_listen;
  data_dir = or_default "./tmp/data" cfg.data_dir;
  grpc_server_dns_names = names_or_default cfg.grpc_server_dns_names;
  org_id = or_default "default" cfg.org_id;
}

unfoldable pub checked : Config → Loaded
checked cfg =
    if cfg.api_key == ""
    then invalid api_key_required
    else if cfg.postgres_dsn == ""
    then invalid postgres_dsn_required
    else if cfg.victoriametrics_url == ""
    then invalid victoriametrics_url_required
    else if cfg.loki_url == ""
    then invalid loki_url_required
    else loaded cfg

-- Load, from what os.Open and the YAML decoder make of the file.
unfoldable pub load : Option Config → Loaded
load none = invalid unreadable
load (some cfg) = checked (with_defaults cfg)
