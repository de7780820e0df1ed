-- ===== src/Stream/Handler/Goroutines/Kept.antt =====
-- What the goroutines of a Connect leave as it was in the tables that they write.
use praetor_server.Prelude.{
  zero, suc, ℕ, String, ◌≡◌, ◌≢◌, refl, ap, ◌∙◌, Bool, Option, none, some, List, [], ◌∷◌, ◌++◌, All,
  All-append, In, append_assoc, append_nil, arith, Bool-cases, inl, inr, sym, eq_iff, suc,
}
use praetor_server.Result.{Conn}
use praetor_server.Store.Commands.{Outcome, complete, get}
use praetor_server.Store.Commands.Lifecycle.{get-complete}
use praetor_server.Store.SecurityEvents
use praetor_server.Store.SecurityEvents.{event_row, SecurityEvent, AgentEvent}
use praetor_server.Stream.Handler.{
  command_result, security_event, Event, Task, sync_config, write_metrics, write_logs,
  handle_result, store_event, Written, run_task,
}
use praetor_server.Stream.Handler.Isolation.{IsOwn, sent}
use praetor_server.Stream.Handler.Goroutines.{Pick, take_out, put_back, after_pick, run_picks}

-- The row of a security event that the agent sent.
pub record IsEventOf (e : AgentEvent) (r : SecurityEvent) : Type 0 where
  pub host_id : r.host_id ≡ e.host_id
  pub type : r.type ≡ e.type
  pub source : r.source ≡ e.source
  pub content : r.content ≡ e.content
  pub raw : r.raw ≡ e.raw

-- Of the messages of a call: no command changes but those whose results were sent, and the rows of
-- security_events stay, with rows of events that were sent behind them.
pub record IsReported {M L R : Type 0} (es : List (Event M L)) (t after : Written R) : Type 0 where
  pub commands :
      (c : Conn) (j : String)
      → ((o : Outcome) → In (command_result o) (sent es) → o.command_id ≢ j)
      → get c j after.commands ≡ get c j t.commands
  pub added : List SecurityEvent
  pub rows : after.events.rows ≡ t.events.rows ++ added
  pub events : All (λ r. (e : AgentEvent) × In (security_event e) (sent es) × IsEventOf e r) added

module _ {M L : Type 0} (id : String) (es : List (Event M L)) where
  -- what is left to do is of the call as well
  abbrev AreOwn : Option (Task M L × List (Task M L)) → Type 0
  AreOwn none = Unit
  AreOwn (some (k, rest)) = IsOwn id es k × All (IsOwn id es) rest

  put_back-AreOwn :
      (k : Task M L) (o : Option (Task M L × List (Task M L)))
      → IsOwn id es k
      → AreOwn o
      → AreOwn (put_back k o)
  put_back-AreOwn k none i a = tt
  put_back-AreOwn k (some (x, rest)) i (p, a) = (p, (i, a))

  take_out-AreOwn : (n : ℕ) (ts : List (Task M L)) → All (IsOwn id es) ts → AreOwn (take_out n ts)
  take_out-AreOwn n [] a = tt
  take_out-AreOwn zero (k ∷ ts) (i, a) = (i, a)
  take_out-AreOwn (suc n) (k ∷ ts) (i, a) =
      put_back-AreOwn k (take_out n ts) i (take_out-AreOwn n ts a)

module _ {M L R : Type 0} (id : String) (es : List (Event M L)) where
  same-IsReported : (t : Written R) → IsReported es t t
  same-IsReported t = record {
    commands = λ c j ne. refl;
    added = [];
    rows = sym (append_nil t.events.rows);
    events = tt;
  }

  then-IsReported :
      (t t' t'' : Written R) → IsReported es t t' → IsReported es t' t'' → IsReported es t t''
  then-IsReported t t' t'' a b = record {
    commands = λ c j ne. b.commands c j ne ∙ a.commands c j ne;
    added = a.added ++ b.added;
    rows = b.rows ∙ (ap (λ x. x ++ b.added) a.rows ∙ append_assoc t.events.rows a.added b.added);
    events =
        All-append (λ r. (e : AgentEvent) × In (security_event e) (sent es) × IsEventOf e r) a.added
          b.added a.events b.events;
  }

  other_result :
      (c c' : Conn) (o : Outcome) (t : Written R) (j : String)
      → o.command_id ≢ j
      → get c' j (complete c o t.commands).1 ≡ get c' j t.commands
  unfolding complete
  other_result c c' o t j ne = elim (Bool-cases c.up) [
    | inr n ↦ rw n refl
    | inl y ↦ get-complete c c' t.commands j o y ∙ ground (arith, ne, eq_iff o.command_id j)
  ]

  insert-IsReported :
      (c : Conn) (hosts : String → Bool) (clock : ℕ) (e : AgentEvent) (t : Written R)
      → In (security_event e) (sent es)
      → IsReported es t (record t { events = (SecurityEvents.insert c hosts clock e t.events).1 })
  unfolding SecurityEvents.insert
  insert-IsReported c hosts clock e t i = elim (Bool-cases c.up) [
    | inr n ↦ rw n (same-IsReported t)
    | inl y ↦ elim (Bool-cases (hosts e.host_id)) [
      | inr n ↦
          rw (y, n)
            (record {
              commands = λ c j ne. refl;
              added = [];
              rows = sym (append_nil t.events.rows);
              events = tt;
            })
      | inl m ↦
          rw (y, m)
            (record {
              commands = λ c j ne. refl;
              added = event_row t.events.next_id c.now clock e ∷ [];
              rows = refl;
              events = (
                (
                  e,
                  i,
                  record { host_id = refl; type = refl; source = refl; content = refl; raw = refl },
                ),
                tt,
              );
            })
    ]
  ]

  task-IsReported :
      (c : Conn) (hosts : String → Bool) (clock : ℕ) (k : Task M L) (t : Written R)
      → IsOwn id es k
      → IsReported es t (run_task c hosts clock k t)
  unfolding run_task
  task-IsReported c hosts clock (sync_config h v) t i = same-IsReported t
  task-IsReported c hosts clock (write_metrics h b) t i = same-IsReported t
  task-IsReported c hosts clock (write_logs h b) t i = same-IsReported t
  task-IsReported c hosts clock (handle_result o) t i = record {
    commands = λ c' j ne. other_result c c' o t j (ne o i);
    added = [];
    rows = sym (append_nil t.events.rows);
    events = tt;
  }
  task-IsReported c hosts clock (store_event e) t i = insert-IsReported c hosts clock e t i

module _ {M L R : Type 0} (id : String) (es : List (Event M L)) where
  pick-IsReported :
      (p : Pick) (o : Option (Task M L × List (Task M L))) (ts : List (Task M L)) (t : Written R)
      → AreOwn id es o
      → All (IsOwn id es) ts
      → All (IsOwn id es) (after_pick p o ts t).0 × IsReported es t (after_pick p o ts t).1
  pick-IsReported p none ts t a all = (all, same-IsReported id es t)
  pick-IsReported p (some (k, rest)) ts t (i, a) all =
      (a, task-IsReported id es p.conn p.hosts p.clock k t i)

  -- Whatever goroutines of the call get to the database, and in whatever order.
  pub run_picks-IsReported :
      (ps : List Pick) (ts : List (Task M L)) (t : Written R)
      → All (IsOwn id es) ts
      → IsReported es t (run_picks ps ts t)
  unfolding run_picks
  run_picks-IsReported [] ts t a = same-IsReported id es t
  run_picks-IsReported (p ∷ ps) ts t a =
      let o = after_pick p (take_out p.index ts) ts t in
      let (rest, w) =
        pick-IsReported p (take_out p.index ts) ts t (take_out-AreOwn id es p.index ts a) a in
      then-IsReported id es t o.1 (run_picks ps o.0 o.1) w (run_picks-IsReported ps o.0 o.1 rest)

-- A call that has started no goroutine.
pub run_picks-nil :
    (M L : Type 0) {R : Type 0} (ps : List Pick) (t : Written R)
    → run_picks {M = M} {L = L} ps [] t ≡ t
unfolding run_picks
run_picks-nil M L [] t = refl
run_picks-nil M L (p ∷ ps) t = run_picks-nil M L ps t
