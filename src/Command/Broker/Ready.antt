-- ===== src/Command/Broker/Ready.antt =====
-- When a call of Issue reaches the agent.
use praetor_server.Prelude.{ℕ, ◌≡◌, ◌≢◌, refl, true, false, none, some, [], ◌∷◌, ◌++◌, arith}
use praetor_server.Sql.{exists_where}
use praetor_server.Store.Commands
use praetor_server.Store.Commands.{has_id}
use praetor_server.Stream.Registry
use praetor_server.Command.RateLimit.{allow}
use praetor_server.Command.Broker.{
  World, IssueRequest, State, Command, diagnostic, shell, unknown, Reply, issue, limited, build,
  store, after_store, push, request_of,
}
use praetor_server.Command.Broker.Audit.{recorded}

-- The store takes the command, and the agent of its host is connected.
pub record IsReady (w : World) (req : IssueRequest) (s : State) (stream : ℕ) : Type 0 where
  pub in_limit : (allow w.clock req.host_id s.buckets).0 ≡ true
  pub known : req.command ≢ unknown
  pub marshals : w.marshals ≡ true
  pub up : w.conn.up ≡ true
  pub fresh : exists_where (has_id w.ulid) s.commands ≡ false
  pub host : w.hosts req.host_id ≡ true
  pub connected : Registry.get req.host_id s.registry ≡ some stream
  pub works : w.sends stream ≡ true

abbrev after_limit : World → IssueRequest → State → State
after_limit w req s = record s { buckets = (allow w.clock req.host_id s.buckets).1 }

-- The id without an error; the command stored as pending; and one request more on the stream.
abbrev pub delivery : World → IssueRequest → State → ℕ → Reply × State
delivery w req s stream = (
  (w.ulid, none),
  record (after_limit w req s) {
    commands = recorded w req s;
    sent = s.sent ++ record { stream = stream; request = request_of w.ulid req } ∷ [];
  },
)

module _ (w : World) (req : IssueRequest) (s : State) (stream : ℕ)
    (r : IsReady w req s stream) where
  store_delivers : store w req (after_limit w req s) ≡ delivery w req s stream
  unfolding store after_store push Commands.insert
  store_delivers = ground (arith, r.marshals, r.up, r.fresh, r.host, r.connected, r.works)

  build_delivers :
      (m : Command) → m ≢ unknown → build w req m (after_limit w req s) ≡ delivery w req s stream
  unfolding build
  build_delivers (diagnostic c) ne = store_delivers
  build_delivers (shell c) ne = store_delivers
  build_delivers unknown ne = absurd (ne refl)

  -- When the limiter lets the call through, the command is a diagnostic or a shell command and
  -- marshals, the database answers and has the host but not yet the id, and the registry has a stream
  -- for the host on which Send works, Issue returns the id without an error: the command is stored as
  -- pending, that stream has got the one request with that id, and nothing else changes.
  pub issue_delivers : issue w req s ≡ delivery w req s stream
  unfolding issue limited
  issue_delivers = rw r.in_limit (build_delivers req.command r.known)
