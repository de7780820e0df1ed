-- ===== src/Command/Broker/Completed.antt =====
-- A command from its issue to the result of the agent.
use praetor_server.Prelude.{
  none, some, refl, eq_iff, ◌≢◌, ℕ, String, ◌≡◌, ap, ◌∙◌, sym, true, arith, ◌==◌, string_eq,
  if◌then◌else◌,
}
use praetor_server.Result.{ok, Conn}
use praetor_server.Store.Commands as Commands
use praetor_server.Store.Commands.{Outcome, CommandExecution, get, completed, pending}
use praetor_server.Store.Commands.Lifecycle.{get-complete, get-insert}
use praetor_server.Command.Broker.{
  CommandRequest, World, IssueRequest, State, issue, handle_result, execution_of,
}
use praetor_server.Command.Broker.Audit.{recorded}
use praetor_server.Command.Broker.Ready.{IsReady, issue_delivers}

-- A row of command_executions that has the command that was issued and the result that was sent.
pub record IsAnswered (w : World) (req : IssueRequest) (now : ℕ) (o : Outcome)
    (r : CommandExecution CommandRequest) : Type 0 where
  pub id : r.id ≡ w.ulid
  pub host : r.host_id ≡ req.host_id
  pub tier : r.tier ≡ w.tier_number req.tier
  pub request : r.command_json.command ≡ req.command
  pub reason : r.reason ≡ req.reason
  pub issued_by : r.issued_by ≡ req.issued_by
  pub issued_at : r.issued_at ≡ w.conn.now
  pub completed_at : r.completed_at ≡ some now
  pub exit_code : r.exit_code ≡ some o.exit_code
  pub stdout : r.stdout ≡ some o.stdout
  pub stderr : r.stderr ≡ some o.stderr
  pub stdout_cut : r.stdout_truncated ≡ o.stdout_truncated
  pub stderr_cut : r.stderr_truncated ≡ o.stderr_truncated
  pub duration : r.duration_ms ≡ some o.duration_ms
  pub succeeded : o.error ≡ "" → (r.error ≡ none) × (r.status ≡ "completed")
  pub broken : o.error ≢ "" → (r.error ≡ some o.error) × (r.status ≡ "failed")

module _ (w : World) (req : IssueRequest) (s : State) (stream : ℕ) (r : IsReady w req s stream)
    (c' : Conn) (up' : c'.up ≡ true) where
  issued_found :
      (j : String)
      → get c' j (issue w req s).1.commands ≡ (
          if w.ulid == j
          then ok (pending w.conn.now (execution_of w.tier_number w.ulid req))
          else get c' j s.commands)
  unfolding Commands.insert
  issued_found j =
      let cmd = execution_of w.tier_number w.ulid req in
      let kept : Commands.insert w.conn w.hosts cmd s.commands ≡ (ok tt, recorded w req s) =
        ground (arith, r.up, r.fresh, r.host) in
      ap (λ o. get c' j o.1.commands) (issue_delivers w req s stream r)
      ∙ (sym (ap (λ x. get c' j x.1) kept)
          ∙ get-insert w.conn c' s.commands j w.hosts cmd (ap (λ x. x.0) kept) up')

  found_after :
      (c : Conn) (o : Outcome) (j : String)
      → c.up ≡ true
      → o.command_id ≡ w.ulid
      → get c' j (handle_result c o (issue w req s).1.commands) ≡ (
          if w.ulid == j
          then ok (completed c.now o (pending w.conn.now (execution_of w.tier_number w.ulid req)))
          else get c' j s.commands)
  unfolding handle_result
  found_after c o j up same =
      ground (arith, get-complete c c' (issue w req s).1.commands j o up, issued_found j, same)

  answered :
      (now : ℕ) (o : Outcome)
      → IsAnswered w req now o
          (completed now o (pending w.conn.now (execution_of w.tier_number w.ulid req)))
  answered now o = record {
    id = refl;
    host = refl;
    tier = refl;
    request = refl;
    reason = refl;
    issued_by = refl;
    issued_at = refl;
    completed_at = refl;
    exit_code = refl;
    stdout = refl;
    stderr = refl;
    stdout_cut = refl;
    stderr_cut = refl;
    duration = refl;
    succeeded = λ e. ground (arith, e, eq_iff o.error "");
    broken = λ ne. ground (arith, ne, eq_iff o.error "");
  }

  -- A command that Issue could deliver is found, once the result of the agent for its id has come
  -- back: with the host, the tier, the reason and the request that were issued, each column of the
  -- result as the agent sent it, and as completed, or as failed if the agent sent an error. Every
  -- other command is found as it was before the command was issued. The database answers both times.
  pub issue-completed :
      (c : Conn) (o : Outcome)
      → c.up ≡ true
      → o.command_id ≡ w.ulid
      → let after = handle_result c o (issue w req s).1.commands in
        ((r : CommandExecution CommandRequest) × (get c' w.ulid after ≡ ok r)
          × IsAnswered w req c.now o r)
        × ((j : String) → w.ulid ≢ j → get c' j after ≡ get c' j s.commands)
  issue-completed c o up same = (
    (
      completed c.now o (pending w.conn.now (execution_of w.tier_number w.ulid req)),
      ground (arith, found_after c o w.ulid up same, eq_iff w.ulid w.ulid),
      answered c.now o,
    ),
    λ j ne. ground (arith, found_after c o j up same, eq_iff w.ulid j, ne),
  )
