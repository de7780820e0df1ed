-- ===== src/Tests/Streams.antt =====
-- Runs of the agents' streams and of the configuration push.
use praetor_server.Prelude.{
  ℕ, pos, ◌+◌, String, ◌≡◌, ◌≢◌, refl, Bool, true, none, some, is_none, List, [], ◌∷◌, All, arith,
  In, inl, if◌then◌else◌, ◌==◌, string_eq,
}
use praetor_server.Result.{ok, Conn}
use praetor_server.Sql.{exists_where, select}
use praetor_server.Peer.{Peer, tls, host_id, host_id_from_stream}
use praetor_server.Store.Hosts.{get_by_id}
use praetor_server.Store.Configs
use praetor_server.Store.Configs.{Field, HostConfig, set_field, allowed, default_config}
use praetor_server.Stream.Registry
use praetor_server.Stream.Registry.{Registry}
use praetor_server.Stream.Registry.Sessions
use praetor_server.Stream.Handler
use praetor_server.Stream.Registry.Sessions.{
  Event, opens, closes, NoOverlap, IsTracked, run, live, run-IsTracked, reconnect, reconnect_lost,
  live_after,
}
use praetor_server.Stream.Handler.{Session, message, heartbeat, ctx_done, connect}
use praetor_server.Stream.Handler.Isolation.{IsOwn, connect_isolated}
use praetor_server.ConfigPush.{push, no_error, ConfigUpdate}
use praetor_server.ConfigPush.Delivery.{push-set_field, value}
use praetor_server.Dict.{lookup}
use praetor_server.Tests.Data.{up_at, a_host, any_host}

abbrev session : Sessions.Session
session = record { host = "h1"; stream = 1 }

abbrev orderly : List Event
orderly = opens session ∷ closes session ∷ opens session ∷ []

no_overlap : NoOverlap [] orderly
unfolding live_after select
no_overlap = ((λ x i. absurd i), (inl refl, ((λ x i. absurd i), tt)))

run-IsTracked_example : IsTracked (run [] orderly) (live [] orderly)
run-IsTracked_example = run-IsTracked orderly no_overlap

abbrev old : ℕ
old = 1

abbrev new : ℕ
new = 2

two_streams : old ≢ new
two_streams e = omega (arith, e)

reconnect_lost_example :
    (Registry.get "h1" (run [] (reconnect "h1" 1 2)) ≡ none)
    × In (record { host = "h1"; stream = 2 }) (live [] (reconnect "h1" 1 2))
reconnect_lost_example = reconnect_lost [] [] "h1" old new two_streams

abbrev caller : Peer
caller = some (tls ((record { common_name = "h1"; not_after = 900 } ∷ []) ∷ []))

caller_ok : host_id_from_stream caller ≡ host_id "h1"
unfolding host_id_from_stream
caller_ok = refl

abbrev before : Session String String
before = record { registry = []; hosts = a_host ∷ []; pings = []; acks = []; tasks = [] }

abbrev events : List (Handler.Event String String)
events = message (up_at 7) 7 (heartbeat none) ∷ ctx_done ∷ []

connect_isolated_example :
    ((c' : Conn) (j : String)
      → "h1" ≢ j
      → get_by_id c' j (connect caller 4 events before).1.hosts ≡ get_by_id c' j before.hosts)
    × (All (IsOwn "h1" events) before.tasks
        → All (IsOwn "h1" events) (connect caller 4 events before).1.tasks)
    × ((j : String)
        → Registry.get j (connect caller 4 events before).1.registry ≡ (
            if "h1" == j
            then (if is_none (connect caller 4 events before).0 then some 4 else none)
            else Registry.get j []))
connect_isolated_example = connect_isolated "h1" caller caller_ok 4 events before

set_ok : (set_field (up_at 4) any_host "h1" "heartbeat_interval_seconds" (pos 60) []).0 ≡ ok tt
unfolding set_field exists_where
set_ok = refl

default_ok : Configs.get (up_at 5) "h1" [] ≡ ok (default_config "h1")
unfolding Configs.get select
default_ok = refl

abbrev registry : Registry
registry = ("h1", 4) ∷ []

connected : Registry.get "h1" registry ≡ some 4
unfolding Registry.get lookup
connected = refl

abbrev works : ℕ → Bool
works s = true

abbrev configs : List HostConfig
configs = (set_field (up_at 4) any_host "h1" "heartbeat_interval_seconds" (pos 60) []).1

push-set_field_example :
    (f : Field) × (u : ConfigUpdate) × (allowed "heartbeat_interval_seconds" ≡ some f)
    × (push works (up_at 5) "h1" registry configs ≡ (no_error, some (4, u)))
    × (value f u ≡ pos 60)
    × (u.config_version ≡ 0 + 1)
push-set_field_example =
    push-set_field (up_at 4) (up_at 5) any_host "h1" "heartbeat_interval_seconds" (pos 60) []
      (default_config "h1") set_ok refl default_ok works registry 4 connected refl
