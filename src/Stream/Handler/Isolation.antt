-- ===== src/Stream/Handler/Isolation.antt =====
-- What a Connect call may write, and what it leaves in the registry.
use praetor_server.Prelude.{
  pos, ℕ, String, ◌≡◌, ◌≢◌, refl, ap, ◌∙◌, true, false, Option, none, some, is_none, List, [], ◌∷◌,
  ◌++◌, arith, Bool-cases, eq_iff, ◌==◌, string_eq, if◌then◌else◌, inl, inr, All, All-append, In,
}
use praetor_server.Result.{Conn}
use praetor_server.Dict.{lookup-insert, lookup-delete}
use praetor_server.Peer.{Peer, host_id, host_id_from_stream}
use praetor_server.Store.Hosts.{Hosts, get_by_id, update_heartbeat}
use praetor_server.Store.Hosts.Rows.{get-update_heartbeat}
use praetor_server.Stream.Registry
use praetor_server.Stream.Handler.{
  time_of, AgentMessage, heartbeat, metric_batch, log_batch, config_ack, command_result,
  security_event, unknown, Task, sync_config, write_metrics, write_logs, handle_result, store_event,
  Event, ctx_done, recv_error, message, tick, Exit, Session, handle_message, loop, connect,
  deferred, registered,
}

-- the messages among the events
abbrev pub sent : {M L : Type 0} → List (Event M L) → List (AgentMessage M L)
sent [] = []
sent (ctx_done ∷ es) = sent es
sent (recv_error eof ∷ es) = sent es
sent (message c now m ∷ es) = m ∷ sent es
sent (tick t works ∷ es) = sent es

-- The tasks of a call: a batch or a configuration is of the host of the certificate, and a result or
-- a security event is one that the agent sent, whatever command and host it names.
abbrev pub IsOwn : {M L : Type 0} → String → List (Event M L) → Task M L → Type 0
IsOwn id es (sync_config h v) = h ≡ id
IsOwn id es (write_metrics h b) = h ≡ id
IsOwn id es (write_logs h b) = h ≡ id
IsOwn id es (handle_result o) = In (command_result o) (sent es)
IsOwn id es (store_event e) = In (security_event e) (sent es)

other_beat :
    (c c' : Conn) (id j : String) (t : ℕ) (rows : Hosts)
    → id ≢ j
    → get_by_id c' j (update_heartbeat c id t "online" rows).1 ≡ get_by_id c' j rows
unfolding update_heartbeat
other_beat c c' id j t rows ne = elim (Bool-cases c.up) [
  | inr n ↦ rw n refl
  | inl y ↦ get-update_heartbeat c c' id j t "online" rows y ∙ ground (arith, ne, eq_iff id j)
]

-- What a stretch of a call may change: other hosts keep their rows, the registry stays, and the new
-- tasks are of the host.
record IsOwnWork {M L : Type 0} (id : String) (all : List (Event M L)) (s s' : Session M L)
    : Type 0 where
  others : (c' : Conn) (j : String) → id ≢ j → get_by_id c' j s'.hosts ≡ get_by_id c' j s.hosts
  same_registry : s'.registry ≡ s.registry
  tasks : All (IsOwn id all) s.tasks → All (IsOwn id all) s'.tasks

module _ {M L : Type 0} (id : String) (all : List (Event M L)) where
  more :
      (k : Task M L) (ts : List (Task M L))
      → IsOwn id all k
      → All (IsOwn id all) ts
      → All (IsOwn id all) (ts ++ k ∷ [])
  more k ts o a = All-append (IsOwn id all) ts (k ∷ []) a (o, tt)

  message-own :
      (c : Conn) (now : ℕ) (m : AgentMessage M L) (s : Session M L)
      → In m (sent all)
      → IsOwnWork id all s (handle_message c now id m s)
  message-own c now (heartbeat t) s i = record {
    others = λ c' j ne. other_beat c c' id j (time_of now t) s.hosts ne;
    same_registry = refl;
    tasks = λ a. a;
  }
  message-own c now (metric_batch b) s i = record {
    others = λ c' j ne. refl;
    same_registry = refl;
    tasks = more (write_metrics id b) s.tasks refl;
  }
  message-own c now (log_batch b) s i = record {
    others = λ c' j ne. refl;
    same_registry = refl;
    tasks = more (write_logs id b) s.tasks refl;
  }
  message-own c now (config_ack k) s i = record {
    others = λ c' j ne. refl;
    same_registry = refl;
    tasks = λ a. a;
  }
  message-own c now (command_result o) s i = record {
    others = λ c' j ne. refl;
    same_registry = refl;
    tasks = more (handle_result o) s.tasks i;
  }
  message-own c now (security_event e) s i = record {
    others = λ c' j ne. refl;
    same_registry = refl;
    tasks = more (store_event e) s.tasks i;
  }
  message-own c now unknown s i = record {
    others = λ c' j ne. refl;
    same_registry = refl;
    tasks = λ a. a;
  }

  loop-own :
      (es : List (Event M L)) (s : Session M L)
      → ((m : AgentMessage M L) → In m (sent es) → In m (sent all))
      → IsOwnWork id all s (loop id es s).1
  unfolding loop
  loop-own [] s sub = record { others = λ c' j ne. refl; same_registry = refl; tasks = λ a. a }
  loop-own (ctx_done ∷ es) s sub = record {
    others = λ c' j ne. refl;
    same_registry = refl;
    tasks = λ a. a;
  }
  loop-own (recv_error eof ∷ es) s sub = record {
    others = λ c' j ne. refl;
    same_registry = refl;
    tasks = λ a. a;
  }
  loop-own (message c now m ∷ es) s sub =
      let k = message-own c now m s (sub m (inl refl)) in
      let r = loop-own es (handle_message c now id m s) (λ x i. sub x (inr i)) in
      record {
        others = λ c' j ne. r.others c' j ne ∙ k.others c' j ne;
        same_registry = r.same_registry ∙ k.same_registry;
        tasks = λ a. r.tasks (k.tasks a);
      }
  loop-own (tick t true ∷ es) s sub =
      let r = loop-own es (record s { pings = s.pings ++ t ∷ [] }) sub in
      record { others = r.others; same_registry = r.same_registry; tasks = r.tasks }
  loop-own (tick t false ∷ es) s sub = record {
    others = λ c' j ne. refl;
    same_registry = refl;
    tasks = λ a. a;
  }

  -- the tail of Connect, from what the loop returned
  deferred-registry :
      (j : String) (o : Option Exit × Session M L)
      → Registry.get j (deferred id o).1.registry ≡ (
          if is_none o.0
          then Registry.get j o.1.registry
          else if id == j
          then none
          else Registry.get j o.1.registry)
  unfolding Registry.get Registry.remove
  deferred-registry j (none, s) = refl
  deferred-registry j (some x, s) = lookup-delete id j s.registry

  deferred-rest :
      (o : Option Exit × Session M L)
      → ((deferred id o).1.hosts ≡ o.1.hosts)
        × ((deferred id o).1.tasks ≡ o.1.tasks)
        × ((deferred id o).0 ≡ o.0)
  deferred-rest (none, s) = (refl, refl, refl)
  deferred-rest (some x, s) = (refl, refl, refl)

module _ {M L : Type 0} (id : String) (peer : Peer) (e : host_id_from_stream peer ≡ host_id id)
    (stream : ℕ) (es : List (Event M L)) (s : Session M L) where
  -- A Connect of the host `id`, on whatever events. The rows of all other hosts in the table hosts
  -- and the streams of all other hosts are as they were. Every batch that it hands on and the
  -- configuration that it asks for go under `id`; every command result and security event that it
  -- hands on is one that the agent sent, unchanged, so under the ids that it names itself. While it
  -- runs, the registry has its stream, and once it returns, none for the host.
  pub connect_isolated :
      ((c' : Conn) (j : String)
        → id ≢ j
        → get_by_id c' j (connect peer stream es s).1.hosts ≡ get_by_id c' j s.hosts)
      × (All (IsOwn id es) s.tasks → All (IsOwn id es) (connect peer stream es s).1.tasks)
      × ((j : String)
          → Registry.get j (connect peer stream es s).1.registry ≡ (
              if id == j
              then (if is_none (connect peer stream es s).0 then some stream else none)
              else Registry.get j s.registry))
  unfolding connect Registry.get Registry.add
  connect_isolated =
      let s1 = registered id stream s in
      let o = loop id es s1 in
      let w = loop-own id es es s1 (λ m i. i) in
      let (hosts, tasks, exit) = deferred-rest id es o in
      rw e (
        (λ c' j ne. ap (get_by_id c' j) hosts ∙ w.others c' j ne),
        (λ a. rw tasks (w.tasks (more id es (sync_config id (pos 0)) s.tasks refl a))),
        (λ j.
            deferred-registry id es j o
            ∙ ground (arith, exit, w.same_registry, lookup-insert id j stream s.registry)),
      )
