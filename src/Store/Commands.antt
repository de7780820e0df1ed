-- ===== src/Store/Commands.antt =====
-- internal/db/store/commands.go: the table command_executions.
pub mod Lifecycle
use praetor_server.Prelude.{
  ℕ, String, Bool, false, Option, none, some, List, [], ◌∷◌, ◌++◌, leb, if◌then◌else◌, ◌==◌,
  string_eq, take, ℤ,
}
use praetor_server.Result.{
  Result, ok, err, no_rows, unique_violation, foreign_key_violation, Conn, exec,
}
use praetor_server.Sql.{select, first, update_where, exists_where, order_by}

-- CommandJSON is the request as it is sent, of type `R`.
pub record CommandExecution (R : Type 0) : Type 0 where
  pub id : String
  pub host_id : String
  pub tier : ℕ
  pub command_json : R
  pub reason : String
  pub issued_by : String
  pub issued_at : ℕ
  pub completed_at : Option ℕ
  pub exit_code : Option ℤ
  pub stdout : Option String
  pub stderr : Option String
  pub stdout_truncated : Bool
  pub stderr_truncated : Bool
  pub duration_ms : Option ℤ
  pub error : Option String
  pub status : String

-- the arguments of Complete: a CommandResult of an agent
pub record Outcome : Type 0 where
  pub command_id : String
  pub exit_code : ℤ
  pub stdout : String
  pub stderr : String
  pub stdout_truncated : Bool
  pub stderr_truncated : Bool
  pub duration_ms : ℤ
  pub error : String

-- NULLIF(error, '')
abbrev pub null_if_empty : String → Option String
null_if_empty s = if s == "" then none else some s

abbrev pub final_status : String → String
final_status agent_err = if agent_err == "" then "completed" else "failed"

module _ {R : Type 0} where
  abbrev pub has_id : String → CommandExecution R → Bool
  has_id id c = c.id == id

  -- The columns that the INSERT leaves out take their defaults.
  abbrev pub pending : ℕ → CommandExecution R → CommandExecution R
  pending now c = record c {
    issued_at = now;
    completed_at = none;
    exit_code = none;
    stdout = none;
    stderr = none;
    stdout_truncated = false;
    stderr_truncated = false;
    duration_ms = none;
    error = none;
    status = "pending";
  }

  unfoldable pub insert :
      Conn
      → (String → Bool)
      → CommandExecution R
      → List (CommandExecution R)
      → Result (Unit {0}) × List (CommandExecution R)
  insert c hosts cmd rows = exec c rows (
      if exists_where (has_id cmd.id) rows
      then (err unique_violation, rows)
      else if hosts cmd.host_id
      then (ok tt, rows ++ pending c.now cmd ∷ [])
      else (err foreign_key_violation, rows))

  abbrev pub completed : ℕ → Outcome → CommandExecution R → CommandExecution R
  completed now o c = record c {
    completed_at = some now;
    exit_code = some o.exit_code;
    stdout = some o.stdout;
    stderr = some o.stderr;
    stdout_truncated = o.stdout_truncated;
    stderr_truncated = o.stderr_truncated;
    duration_ms = some o.duration_ms;
    error = null_if_empty o.error;
    status = final_status o.error;
  }

  -- An unknown id is no error, and a command that has its result is written again.
  unfoldable pub complete :
      Conn → Outcome → List (CommandExecution R) → Result (Unit {0}) × List (CommandExecution R)
  complete c o rows =
      exec c rows (ok tt, update_where (has_id o.command_id) (completed c.now o) rows)

  abbrev pub later : CommandExecution R → CommandExecution R → Bool
  later a b = leb b.issued_at a.issued_at

  unfoldable pub list_by_host :
      Conn → String → ℕ → List (CommandExecution R) → Result (List (CommandExecution R))
  list_by_host c host_id limit rows =
      (exec c rows
        (ok (take limit (order_by later (select (λ r. r.host_id == host_id) rows))), rows)).0

  abbrev one_row : Option (CommandExecution R) → Result (CommandExecution R)
  one_row none = err no_rows
  one_row (some r) = ok r

  unfoldable pub get : Conn → String → List (CommandExecution R) → Result (CommandExecution R)
  get c id rows = (exec c rows (one_row (first (select (has_id id) rows)), rows)).0
