-- ===== src/ConfigPush.antt =====
-- internal/configpush/service.go: the configuration of a host goes to its agent.
pub mod Delivery
use praetor_server.Prelude.{
  ℕ, ◌-◌, ◌%◌, ◌^◌, ◌+◌, ℤ, pos, negsuc, String, Bool, true, false, Option, none, some, List, [],
  ◌∷◌, ltb, leb, if◌then◌else◌,
}
use praetor_server.Result.{Error, Result, ok, err, Conn}
use praetor_server.Store.Configs
use praetor_server.Store.Configs.{HostConfig}
use praetor_server.Stream.Registry
use praetor_server.Stream.Registry.{Registry}

-- Go's int32(x): the low 32 bits of x, read as a signed number.
abbrev pub signed_32 : ℕ → ℤ
signed_32 m = if ltb m (2 ^ 31) then pos m else negsuc (2 ^ 32 - 1 - m)

unfoldable pub int32 : ℤ → ℤ
int32 (pos n) = signed_32 (n % 2 ^ 32)
int32 (negsuc n) = signed_32 (2 ^ 32 - 1 - n % 2 ^ 32)

-- the message ConfigUpdate with its AgentConfig
pub record ConfigUpdate : Type 0 where
  pub config_version : ℕ
  pub heartbeat_interval_seconds : ℤ
  pub metric_collection_interval_seconds : ℤ
  pub log_sources : List String

abbrev pub update_of : HostConfig → ConfigUpdate
update_of cfg = record {
  config_version = cfg.config_version;
  heartbeat_interval_seconds = int32 cfg.heartbeat_interval_seconds;
  metric_collection_interval_seconds = int32 cfg.metric_collection_interval_seconds;
  log_sources = cfg.log_sources;
}

-- The errors of the service; `no_error` is nil.
pub data PushResult : Type 0 where
  no_error send_failed : PushResult
  get_failed : Error → PushResult

-- The result, and the message that went out with its stream.
abbrev pub Pushed : Type 0
Pushed = PushResult × Option (ℕ × ConfigUpdate)

-- `sends` says whether a Send on a stream works.
unfoldable pub send : (ℕ → Bool) → ℕ → HostConfig → Pushed
send sends stream cfg =
    if sends stream then (no_error, some (stream, update_of cfg)) else (send_failed, none)

unfoldable pub got : (ℕ → Bool) → ℕ → Result HostConfig → Pushed
got sends stream (err e) = (get_failed e, none)
got sends stream (ok cfg) = send sends stream cfg

unfoldable pub to_stream : (ℕ → Bool) → Option ℕ → Result HostConfig → Pushed
to_stream sends none r = (no_error, none)
to_stream sends (some stream) r = got sends stream r

unfoldable pub push : (ℕ → Bool) → Conn → String → Registry → List HostConfig → Pushed
push sends c host_id registry configs =
    to_stream sends (Registry.get host_id registry) (Configs.get c host_id configs)

abbrev pub to_registered : (ℕ → Bool) → Option ℕ → HostConfig → Pushed
to_registered sends none cfg = (no_error, none)
to_registered sends (some stream) cfg = send sends stream cfg

-- The version that the agent has, an int64, may be any number.
abbrev pub up_to_date : ℕ → ℤ → Bool
up_to_date version (pos n) = leb version n
up_to_date version (negsuc n) = false

unfoldable pub synced : (ℕ → Bool) → Option ℕ → ℤ → Result HostConfig → Pushed
synced sends stream agent_version (err e) = (get_failed e, none)
synced sends stream agent_version (ok cfg) =
    if up_to_date cfg.config_version agent_version
    then (no_error, none)
    else to_registered sends stream cfg

unfoldable pub sync_on_connect :
    (ℕ → Bool) → Conn → String → ℤ → Registry → List HostConfig → Pushed
sync_on_connect sends c host_id agent_version registry configs =
    synced sends (Registry.get host_id registry) agent_version (Configs.get c host_id configs)

-- the message ConfigAck, and the line that HandleAck logs
pub record ConfigAck : Type 0 where
  pub applied : Bool
  pub config_version : ℤ
  pub error : String

pub data AckLine : Type 0 where
  ack_applied : String → ℤ → AckLine
  ack_rejected : String → ℤ → String → AckLine

unfoldable pub handle_ack : String → ConfigAck → AckLine
handle_ack host_id ack =
    if ack.applied
    then ack_applied host_id ack.config_version
    else ack_rejected host_id ack.config_version ack.error
