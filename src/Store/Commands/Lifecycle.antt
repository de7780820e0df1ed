-- ===== src/Store/Commands/Lifecycle.antt =====
-- A command from Insert to Complete, and the listing of a host's commands.
use praetor_server.Prelude.{
  ℕ, String, ◌≡◌, refl, Bool, true, false, List, [], ◌∷◌, arith, eq_iff, ◌==◌, string_eq,
  if◌then◌else◌, take,
}
use praetor_server.Result.{ok, err, Conn, Result}
use praetor_server.Sql.{
  select, order_by, first-append, first-update_key, exists-first, IsPage, take-IsPage,
}
use praetor_server.Store.Commands.{
  CommandExecution, Outcome, insert, complete, get, list_by_host, has_id, pending, completed, later,
}

abbrev pub map_ok :
    {R : Type 0}
    → (CommandExecution R → CommandExecution R)
    → Result (CommandExecution R)
    → Result (CommandExecution R)
map_ok f (ok c) = ok (f c)
map_ok f (err e) = err e

module _ {R : Type 0} (c c' : Conn) (rows : List (CommandExecution R)) (j : String) where
  -- Complete writes the result to the command with the id, and to no other; an unknown id stays
  -- unknown.
  pub get-complete :
      (o : Outcome)
      → c.up ≡ true
      → get c' j (complete c o rows).1
        ≡ (if o.command_id == j then map_ok (completed c.now o) (get c' j rows) else get c' j rows)
  unfolding get complete
  get-complete o up =
      ground (
        arith,
        up,
        first-update_key (λ r. r.id) (completed c.now o) (λ r. refl) o.command_id j rows,
      )

  -- After an Insert that worked, Get finds the new command as pending, and all others as before.
  pub get-insert :
      (hosts : String → Bool) (cmd : CommandExecution R)
      → (insert c hosts cmd rows).0 ≡ ok tt
      → c'.up ≡ true
      → get c' j (insert c hosts cmd rows).1
        ≡ (if cmd.id == j then ok (pending c.now cmd) else get c' j rows)
  unfolding get insert select
  get-insert hosts cmd done up = ground (
    arith,
    done,
    up,
    first-append (has_id j) rows (pending c.now cmd ∷ []),
    exists-first (has_id cmd.id) rows,
    eq_iff cmd.id j,
  )

later_total : {R : Type 0} (a b : CommandExecution R) → later a b ≡ false → later b a ≡ true
later_total a b h = ground arith

later_trans :
    {R : Type 0} (a b d : CommandExecution R)
    → later a b ≡ true
    → later b d ≡ true
    → later a d ≡ true
later_trans a b d h k = ground arith

-- While the database answers, ListByHost returns a page of the commands of the host, latest first:
-- at most `limit`, and a command that is left out is not later than any of a full page.
pub list_by_host-IsPage :
    {R : Type 0} (c : Conn) (host_id : String) (limit : ℕ) (rows : List (CommandExecution R))
    → c.up ≡ true
    → (out : List (CommandExecution R)) × (list_by_host c host_id limit rows ≡ ok out)
      × IsPage later (λ r. r.host_id == host_id) limit rows out
unfolding list_by_host
list_by_host-IsPage c host_id limit rows up = (
  take limit (order_by later (select (λ r. r.host_id == host_id) rows)),
  rw up refl,
  take-IsPage later later_total later_trans (λ r. r.host_id == host_id) limit rows,
)
