-- ===== src/Stream/Handler.antt =====
-- internal/stream/handler.go: the Connect call of an agent. What the select statement picks is a
-- list of events; the goroutines that a message starts are tasks, listed in the order of their start.
-- `M` and `L` are the batches of metrics and of logs.
pub mod Isolation
pub mod Goroutines
use praetor_server.Prelude.{
  ℕ, ℤ, pos, String, Bool, true, false, Option, none, some, List, [], ◌∷◌, ◌++◌, if◌then◌else◌,
}
use praetor_server.Result.{Error, Result, ok, err, Conn}
use praetor_server.Peer.{Peer, AuthError, HostId, host_id, refused, host_id_from_stream}
use praetor_server.Store.Hosts
use praetor_server.Store.Hosts.{Hosts, update_heartbeat}
use praetor_server.Store.Commands
use praetor_server.Store.Commands.{CommandExecution, Outcome}
use praetor_server.Store.SecurityEvents
use praetor_server.Store.SecurityEvents.{AgentEvent, SecurityEvents}
use praetor_server.Stream.Registry
use praetor_server.Stream.Registry.{Registry}
use praetor_server.ConfigPush.{ConfigAck, AckLine, handle_ack}

-- The payloads that handleMessage tells apart; of a heartbeat it reads the time.
pub data AgentMessage (M L : Type 0) : Type 0 where
  heartbeat : Option ℕ → AgentMessage M L
  metric_batch : M → AgentMessage M L
  log_batch : L → AgentMessage M L
  config_ack : ConfigAck → AgentMessage M L
  command_result : Outcome → AgentMessage M L
  security_event : AgentEvent → AgentMessage M L
  unknown : AgentMessage M L

-- The goroutines: SyncOnConnect at version 0, the two batch writers, HandleResult, and the INSERT of
-- a security event.
pub data Task (M L : Type 0) : Type 0 where
  sync_config : String → ℤ → Task M L
  write_metrics : String → M → Task M L
  write_logs : String → L → Task M L
  handle_result : Outcome → Task M L
  store_event : AgentEvent → Task M L

-- What the select statement of Connect picks: the end of the context, an error of Recv (is it
-- io.EOF), a message (with the database and the clock when it is handled), or a tick (does the ping
-- go out).
pub data Event (M L : Type 0) : Type 0 where
  ctx_done : Event M L
  recv_error : Bool → Event M L
  message : Conn → ℕ → AgentMessage M L → Event M L
  tick : ℕ → Bool → Event M L

-- How Connect returns; `returned` is a nil error.
pub data Exit : Type 0 where
  returned recv_failed ping_failed : Exit
  unauthenticated : AuthError → Exit

-- What the call reads and writes: the pings of its stream, the lines of the acks, and the tasks.
pub record Session (M L : Type 0) : Type 0 where
  pub registry : Registry
  pub hosts : Hosts
  pub pings : List ℕ
  pub acks : List AckLine
  pub tasks : List (Task M L)

abbrev time_of : ℕ → Option ℕ → ℕ
time_of now none = now
time_of now (some t) = t

module _ {M L : Type 0} where
  abbrev spawn : Task M L → Session M L → Session M L
  spawn k s = record s { tasks = s.tasks ++ k ∷ [] }

  -- handleHeartbeat: an error is logged by the loop, and the stream goes on.
  abbrev pub handle_heartbeat : Conn → ℕ → String → Option ℕ → Session M L → Session M L
  handle_heartbeat c now id t s = record s {
    hosts = (update_heartbeat c id (time_of now t) "online" s.hosts).1;
  }

  abbrev pub handle_message : Conn → ℕ → String → AgentMessage M L → Session M L → Session M L
  handle_message c now id (heartbeat t) s = handle_heartbeat c now id t s
  handle_message c now id (metric_batch b) s = spawn (write_metrics id b) s
  handle_message c now id (log_batch b) s = spawn (write_logs id b) s
  handle_message c now id (config_ack a) s = record s { acks = s.acks ++ handle_ack id a ∷ [] }
  handle_message c now id (command_result o) s = spawn (handle_result o) s
  handle_message c now id (security_event e) s = spawn (store_event e) s
  handle_message c now id unknown s = s

  -- The loop, until it returns; without an exit it still waits when the events are over.
  unfoldable pub loop : String → List (Event M L) → Session M L → Option Exit × Session M L
  loop id [] s = (none, s)
  loop id (ctx_done ∷ es) s = (some returned, s)
  loop id (recv_error eof ∷ es) s = ((if eof then some returned else some recv_failed), s)
  loop id (message c now m ∷ es) s = loop id es (handle_message c now id m s)
  loop id (tick t works ∷ es) s =
      let rest = loop id es (record s { pings = s.pings ++ t ∷ [] }) in
      if works then rest else (some ping_failed, s)

  -- the deferred Remove, which runs when the loop returns
  abbrev pub deferred : String → Option Exit × Session M L → Option Exit × Session M L
  deferred id (none, s) = (none, s)
  deferred id (some x, s) = (some x, record s { registry = Registry.remove id s.registry })

  abbrev pub registered : String → ℕ → Session M L → Session M L
  registered id stream s =
      spawn (sync_config id (pos 0)) (record s { registry = Registry.add id stream s.registry })

  abbrev pub connected : HostId → ℕ → List (Event M L) → Session M L → Option Exit × Session M L
  connected (refused e) stream es s = (some (unauthenticated e), s)
  connected (host_id id) stream es s = deferred id (loop id es (registered id stream s))

  unfoldable pub connect : Peer → ℕ → List (Event M L) → Session M L → Option Exit × Session M L
  connect peer stream es s = connected (host_id_from_stream peer) stream es s

-- The tables that the tasks write.
pub record Written (R : Type 0) : Type 0 where
  pub commands : List (CommandExecution R)
  pub events : SecurityEvents

-- What a task does to the two tables; the writers and the push go elsewhere.
unfoldable pub run_task :
    {M L R : Type 0} → Conn → (String → Bool) → ℕ → Task M L → Written R → Written R
run_task c hosts clock (handle_result o) t = record t {
  commands = (Commands.complete c o t.commands).1;
}
run_task c hosts clock (store_event e) t = record t {
  events = (SecurityEvents.insert c hosts clock e t.events).1;
}
run_task c hosts clock (sync_config id v) t = t
run_task c hosts clock (write_metrics id b) t = t
run_task c hosts clock (write_logs id b) t = t
