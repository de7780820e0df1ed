-- ===== src/ConfigPush/Delivery.antt =====
-- What the agent gets after a SetField.
use praetor_server.Prelude.{
  ℕ, ◌+◌, ℤ, pos, negsuc, String, ◌≡◌, refl, Bool, if◌then◌else◌, leb, true, none, some, List,
  arith, eq_iff, string_eq, fits,
}
use praetor_server.Result.{ok, Conn}
use praetor_server.Store.Configs.{
  HostConfig, Field, heartbeat_interval, metric_collection_interval, set_field, get, allowed,
}
use praetor_server.Store.Configs.Versions.{set_to, get-set_field}
use praetor_server.Stream.Registry
use praetor_server.Stream.Registry.{Registry}
use praetor_server.ConfigPush.{
  push, sync_on_connect, update_of, int32, no_error, ConfigUpdate, send, got, to_stream, synced,
}

-- A value of an INTEGER column passes through int32 as it is.
pub int32-fits : (v : ℤ) → fits 31 v ≡ true → int32 v ≡ v
unfolding int32
int32-fits (pos n) h = ground arith
int32-fits (negsuc n) h = ground arith

abbrev pub value : Field → ConfigUpdate → ℤ
value heartbeat_interval u = u.heartbeat_interval_seconds
value metric_collection_interval u = u.metric_collection_interval_seconds

value_set :
    (now : ℕ) (f : Field) (v : ℤ) (cfg : HostConfig)
    → fits 31 v ≡ true
    → value f (update_of (set_to now f v cfg)) ≡ v
value_set now heartbeat_interval v cfg h = int32-fits v h
value_set now metric_collection_interval v cfg h = int32-fits v h

version_set :
    (now : ℕ) (f : Field) (v : ℤ) (cfg : HostConfig)
    → (set_to now f v cfg).config_version ≡ cfg.config_version + 1
version_set now heartbeat_interval v cfg = refl
version_set now metric_collection_interval v cfg = refl

module _ (c c' : Conn) (hosts : String → Bool) (host_id field : String) (v : ℤ)
    (configs : List HostConfig) (cfg : HostConfig)
    (done : (set_field c hosts host_id field v configs).0 ≡ ok tt) (up : c'.up ≡ true)
    (before : get c' host_id configs ≡ ok cfg) where
  now_has :
      (f : Field) × (allowed field ≡ some f)
      × (fits 31 v ≡ true)
      × (get c' host_id (set_field c hosts host_id field v configs).1 ≡ ok (set_to c.now f v cfg))
  now_has =
      let (f, a, k, e) = get-set_field c c' hosts host_id v configs field host_id done up in
      (f, a, k, ground (arith, e, before, eq_iff host_id host_id))

  -- After a SetField that worked, Push sends the agent that the registry has for the host exactly one
  -- message, in which the field has the value that was set and the version is one more than it was.
  pub push-set_field :
      (sends : ℕ → Bool) (registry : Registry) (stream : ℕ)
      → Registry.get host_id registry ≡ some stream
      → sends stream ≡ true
      → (f : Field) × (u : ConfigUpdate) × (allowed field ≡ some f)
        × (push sends c' host_id registry (set_field c hosts host_id field v configs).1
            ≡ (no_error, some (stream, u)))
        × (value f u ≡ v)
        × (u.config_version ≡ cfg.config_version + 1)
  unfolding push to_stream got send
  push-set_field sends registry stream there works =
      let (f, a, k, e) = now_has in
      (
        f,
        update_of (set_to c.now f v cfg),
        a,
        ground (arith, e, there, works),
        value_set c.now f v cfg k,
        version_set c.now f v cfg,
      )

  -- An agent that had the version from before a SetField that worked, or an older one, gets the new
  -- configuration when it connects; an agent that has the new version gets nothing.
  pub sync-set_field :
      (sends : ℕ → Bool) (registry : Registry) (stream agent_version : ℕ)
      → Registry.get host_id registry ≡ some stream
      → sends stream ≡ true
      → (f : Field) × (allowed field ≡ some f)
        × (sync_on_connect sends c' host_id
              (pos agent_version)
              registry
              (set_field c hosts host_id field v configs).1
            ≡ (
              no_error,
              (if leb agent_version cfg.config_version
                  then some (stream, update_of (set_to c.now f v cfg))
                  else none),
            ))
  unfolding sync_on_connect synced send
  sync-set_field sends registry stream agent_version there works =
      let (f, a, k, e) = now_has in
      (f, a, ground (arith, e, there, works, version_set c.now f v cfg))
