-- ===== src/Command/Broker/Audit.antt =====
-- What a reply of Issue says about the audit table and the agent's stream.
use praetor_server.Prelude.{
  ℕ, ◌≡◌, ◌⊎◌, inl, inr, refl, subst, Bool, true, false, Option, none, some, List, [], ◌∷◌, ◌++◌,
  arith, string_eq, Bool-cases,
}
use praetor_server.Result.{
  Error, Result, ok, err, unavailable, unique_violation, foreign_key_violation,
}
use praetor_server.Sql.{exists_where}
use praetor_server.Store.Commands
use praetor_server.Store.Commands.{CommandExecution, pending, has_id}
use praetor_server.Stream.Registry
use praetor_server.Command.RateLimit.{allow}
use praetor_server.Command.Broker.{
  World, diagnostic, shell, push, store, after_store, build, limited, IssueRequest, State, Reply,
  IssueError, Command, unknown, not_connected, send_failed, rate_limited, issue, request_of,
  execution_of, CommandRequest, store_failed, marshal_failed, unknown_command, Buckets,
}

-- The pending record of a command.
abbrev pub recorded : World → IssueRequest → State → List (CommandExecution CommandRequest)
recorded w req s = s.commands ++ pending w.conn.now (execution_of w.tier_number w.ulid req) ∷ []

-- What one call of Issue can come to.
pub data Issued (w : World) (req : IssueRequest) (s : State) (reply : Reply) (s' : State)
    : Type 0 where
  -- no id: nothing was stored or sent
  refused :
      (e : IssueError)
      → reply ≡ ("", some e)
      → s'.commands ≡ s.commands
      → s'.sent ≡ s.sent
      → Issued w req s reply s'
  -- an id and an error: the command is stored as pending, and no message went out
  queued :
      (e : IssueError)
      → ((e ≡ not_connected) × (Registry.get req.host_id s.registry ≡ none))
        ⊎ ((e ≡ send_failed)
            × ((stream : ℕ) × (Registry.get req.host_id s.registry ≡ some stream)
                × (w.sends stream ≡ false)))
      → reply ≡ (w.ulid, some e)
      → s'.commands ≡ recorded w req s
      → s'.sent ≡ s.sent
      → Issued w req s reply s'
  -- an id and no error: it is stored, and went to the stream that the registry has for the host
  delivered :
      (stream : ℕ)
      → Registry.get req.host_id s.registry ≡ some stream
      → reply ≡ (w.ulid, none)
      → s'.commands ≡ recorded w req s
      → s'.sent ≡ s.sent ++ record { stream = stream; request = request_of w.ulid req } ∷ []
      → Issued w req s reply s'

module _ (w : World) (req : IssueRequest) (s : State) where
  stored_or_not :
      ((Commands.insert w.conn w.hosts (execution_of w.tier_number w.ulid req) s.commands)
        ≡ (ok tt, recorded w req s))
      ⊎ ((e : Error) × (Commands.insert w.conn w.hosts
              (execution_of w.tier_number w.ulid req)
              s.commands
            ≡ (err e, s.commands)))
  unfolding Commands.insert
  stored_or_not = elim (Bool-cases w.conn.up) [
    | inr down ↦ inr (unavailable, ground (arith, down))
    | inl up ↦ elim (Bool-cases (exists_where (has_id w.ulid) s.commands)) [
      | inl dup ↦ inr (unique_violation, ground (arith, up, dup))
      | inr new ↦ elim (Bool-cases (w.hosts req.host_id)) [
        | inl host ↦ inl (ground (arith, up, new, host))
        | inr no_host ↦ inr (foreign_key_violation, ground (arith, up, new, no_host))
      ]
    ]
  ]

  abbrev After : State → Reply × State → Type 0
  After s1 o = Issued w req s o.0 o.1 × (o.1.registry ≡ s.registry) × (o.1.buckets ≡ s1.buckets)

  -- the push, by what the registry has for the host
  push_cases :
      (s1 : State) (r : Option ℕ)
      → Registry.get req.host_id s.registry ≡ r
      → s1.commands ≡ recorded w req s
      → s1.sent ≡ s.sent
      → s1.registry ≡ s.registry
      → After s1 (push w req r s1)
  unfolding push
  push_cases s1 none e c t g = (queued not_connected (inl (refl, e)) refl c t, g, refl)
  push_cases s1 (some stream) e c t g = elim (Bool-cases (w.sends stream)) [
    | inl y ↦ (
      delivered stream e (ground (arith, y)) (ground (arith, y, c)) (ground (arith, y, t)),
      ground (arith, y, g),
      ground (arith, y),
    )
    | inr n ↦ (
      queued send_failed (inr (refl, (stream, e, n))) (ground (arith, n)) (ground (arith, n, c))
          (ground (arith, n, t)),
      ground (arith, n, g),
      ground (arith, n),
    )
  ]

  after_store_cases :
      (s1 : State) (o : Result (Unit {0}) × List (CommandExecution CommandRequest))
      → (o ≡ (ok tt, recorded w req s)) ⊎ ((e : Error) × (o ≡ (err e, s.commands)))
      → s1.sent ≡ s.sent
      → s1.registry ≡ s.registry
      → After s1 (after_store w req s1 o)
  unfolding after_store
  after_store_cases s1 (ok u, rows) (inl y) t g =
      push_cases (record s1 { commands = rows }) (Registry.get req.host_id s1.registry)
        (ground (arith, g)) (ground (arith, y)) t g
  after_store_cases s1 (ok u, rows) (inr (e, y)) t g = absurd (ground (arith, y))
  after_store_cases s1 (err x, rows) (inl y) t g = absurd (ground (arith, y))
  after_store_cases s1 (err x, rows) (inr (e, y)) t g =
      (refused (store_failed x) refl (ground (arith, y)) t, g, refl)

  store_cases :
      (s1 : State)
      → s1.commands ≡ s.commands
      → s1.sent ≡ s.sent
      → s1.registry ≡ s.registry
      → After s1 (store w req s1)
  unfolding store
  store_cases s1 c t g =
      let o = Commands.insert w.conn w.hosts (execution_of w.tier_number w.ulid req) s1.commands in
      let stored = after_store_cases s1 o (rw c stored_or_not) t g in
      elim (Bool-cases w.marshals) [
        | inl y ↦ subst (After s1) (ground (arith, y)) stored
        | inr n ↦
            let unsent : (("", some marshal_failed), s1) ≡ store w req s1 = ground (arith, n) in
            subst (After s1) unsent (refused marshal_failed refl c t, g, refl)
      ]

  build_cases :
      (s1 : State) (m : Command)
      → s1.commands ≡ s.commands
      → s1.sent ≡ s.sent
      → s1.registry ≡ s.registry
      → After s1 (build w req m s1)
  unfolding build
  build_cases s1 (diagnostic x) c t g = store_cases s1 c t g
  build_cases s1 (shell x) c t g = store_cases s1 c t g
  build_cases s1 unknown c t g = (refused unknown_command refl c t, g, refl)

  limited_cases : (o : Bool × Buckets) → After (record s { buckets = o.1 }) (limited w req s o)
  unfolding limited
  limited_cases (true, b) = build_cases (record s { buckets = b }) req.command refl refl refl
  limited_cases (false, b) = (refused rate_limited refl refl refl, refl, refl)

  -- Every call of Issue leaves the registry as it is, counts in the limiter, and ends in one of the
  -- cases of Issued: refused with an error and no id, when nothing was stored or sent; stored as
  -- pending and not sent, when the registry has no stream or the Send fails; or stored as pending
  -- and sent, once, to the stream that the registry has for the host.
  pub issue_cases :
      Issued w req s (issue w req s).0 (issue w req s).1
      × ((issue w req s).1.registry ≡ s.registry)
      × ((issue w req s).1.buckets ≡ (allow w.clock req.host_id s.buckets).1)
  unfolding issue
  issue_cases = limited_cases (allow w.clock req.host_id s.buckets)
