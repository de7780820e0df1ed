-- ===== src/Api/Commands/Accepted.antt =====
-- What an accepted command means.
use praetor_server.Prelude.{
  none, [], ◌∷◌, ◌++◌, String, ◌≡◌, ◌≢◌, refl, subst, some, arith, eq_iff, string_eq,
}
use praetor_server.Store.Commands.{CommandExecution, pending}
use praetor_server.Command.Broker.{
  CommandRequest, execution_of, World, IssueRequest, State, Reply, issue,
}
use praetor_server.Command.Broker.Audit.{Issued, refused, queued, delivered, recorded, issue_cases}
use praetor_server.Api.{success}
use praetor_server.Api.Commands.{
  IssueCommandRequest, Step, go, stop, checked_request, answer, issue_checked, handle_issue_command,
}

-- A row of command_executions that waits for the result of its agent.
pub record IsPending (w : World) (req : IssueRequest) (r : CommandExecution CommandRequest)
    : Type 0 where
  pub id : r.id ≡ w.ulid
  pub host : r.host_id ≡ req.host_id
  pub tier : r.tier ≡ w.tier_number req.tier
  pub request : r.command_json.command ≡ req.command
  pub reason : r.reason ≡ req.reason
  pub issued_by : r.issued_by ≡ req.issued_by
  pub issued_at : r.issued_at ≡ w.conn.now
  pub completed_at : r.completed_at ≡ none
  pub exit_code : r.exit_code ≡ none
  pub stdout : r.stdout ≡ none
  pub stderr : r.stderr ≡ none
  pub error : r.error ≡ none
  pub status : r.status ≡ "pending"

module _ (w : World) (s : State) (named : w.ulid ≢ "") where
  answered :
      (req : IssueRequest) (o : Reply) (s' : State)
      → Issued w req s o s'
      → (id : String) → answer o ≡ success 202 id
      → (id ≡ w.ulid) × (s'.commands ≡ recorded w req s)
  unfolding answer
  answered req o s' (refused e r c t) id a =
      let a' = subst (λ x. answer x ≡ success 202 id) r a in
      absurd (ground (arith, a', eq_iff "" ""))
  answered req o s' (queued e why r c t) id a =
      let a' = subst (λ x. answer x ≡ success 202 id) r a in
      (ground (arith, a', named, eq_iff w.ulid ""), c)
  answered req o s' (delivered stream there r c t) id a =
      let a' = subst (λ x. answer x ≡ success 202 id) r a in (ground (arith, a'), c)

  accepted_step :
      (step : Step IssueRequest) (id : String)
      → (issue_checked w step s).0 ≡ success 202 id
      → (req : IssueRequest) × (step ≡ go req)
        × (id ≡ w.ulid)
        × ((issue_checked w step s).1.commands ≡ recorded w req s)
  unfolding issue_checked
  accepted_step (stop e) id a = absurd (ground (arith, a))
  accepted_step (go req) id a =
      let (i, c) = answered req (issue w req s).0 (issue w req s).1 (issue_cases w req s).0 id a in
      (req, refl, i, c)

  -- A reply 202 of POST /v1/commands means that the request passed all checks and that the command is
  -- stored as pending, under the id that the reply has, whether or not its agent is connected: the
  -- new row is the last one, with the host, the reason and the issuer of the request, the time of the
  -- database, and no result.
  pub accepted_recorded :
      (body : IssueCommandRequest) (id : String)
      → (handle_issue_command w (some body) s).0 ≡ success 202 id
      → (req : IssueRequest) × (checked_request body ≡ go req)
        × (id ≡ w.ulid)
        × ((handle_issue_command w (some body) s).1.commands ≡ recorded w req s)
        × ((r : CommandExecution CommandRequest) × (recorded w req s ≡ s.commands ++ r ∷ [])
            × IsPending w req r)
  unfolding handle_issue_command
  accepted_recorded body id a =
      let (req, passed, same, kept) = accepted_step (checked_request body) id a in
      (
        req,
        passed,
        same,
        kept,
        (
          pending w.conn.now (execution_of w.tier_number w.ulid req),
          refl,
          record {
            id = refl;
            host = refl;
            tier = refl;
            request = refl;
            reason = refl;
            issued_by = refl;
            issued_at = refl;
            completed_at = refl;
            exit_code = refl;
            stdout = refl;
            stderr = refl;
            error = refl;
            status = refl;
          },
        ),
      )
