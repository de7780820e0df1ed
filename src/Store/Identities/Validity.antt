-- ===== src/Store/Identities/Validity.antt =====
-- The unique index of agent_identities over histories of statements, and Revoke.
use praetor_server.Prelude.{
  ◌≤◌, String, Bool, [], ◌∷◌, arith, Bool-cases, eq_iff, string_eq, nat_eq, inl, inr, ℕ, List, ◌≡◌,
  some, true, false,
}
use praetor_server.Result.{Conn, ok, err, not_found_or_used}
use praetor_server.Sql.{
  exists_where, count_where, count-append, exists-count, count-update-le, exists-update_none,
  update-absent, update_where,
}
use praetor_server.Store.Identities.{
  AgentIdentity, Identities, insert, valid_fingerprint, stored, revoke, revocable,
}

-- what the unique index keeps: one unrevoked row for each fingerprint
pub record IsIndexed (t : Identities) : Type 0 where
  pub one_valid : (fp : String) → count_where (valid_fingerprint fp) t.rows ≤ 1

-- Insert keeps the index: no two unrevoked identities have the same fingerprint.
insert-IsIndexed :
    (c : Conn) (hosts : String → Bool) (ai : AgentIdentity) (t : Identities)
    → IsIndexed t
    → IsIndexed (insert c hosts ai t).1
unfolding insert count_where
insert-IsIndexed c hosts ai t k = record {
  one_valid = λ fp.
      elim (Bool-cases (exists_where (valid_fingerprint ai.cert_fingerprint) t.rows)) [
        | inl y ↦ ground (arith, y, k.one_valid fp)
        | inr n ↦ ground (
          arith,
          n,
          k.one_valid fp,
          exists-count (valid_fingerprint ai.cert_fingerprint) t.rows n,
          count-append (valid_fingerprint fp) t.rows (stored t.next_id c.now ai ∷ []),
          eq_iff ai.cert_fingerprint fp,
        )
      ];
}

revoke-IsIndexed :
    (c : Conn) (id : ℕ) (reason : String) (t : Identities)
    → IsIndexed t
    → IsIndexed (revoke c id reason t).1
unfolding revoke
revoke-IsIndexed c id reason t k = record {
  one_valid = λ fp. ground (
    arith,
    k.one_valid fp,
    count-update-le (revocable id)
        (λ r. record r { revoked_at = some c.now; revoked_reason = some reason })
        (valid_fingerprint fp) t.rows (λ r y z. ground arith),
  );
}

-- the statements that write the table
pub data Op : Type 0 where
  inserts : (hosts : String → Bool) → AgentIdentity → Op
  revokes : ℕ → String → Op

pub step : Conn → Op → Identities → Identities
step c (inserts hosts ai) t = (insert c hosts ai t).1
step c (revokes id reason) t = (revoke c id reason t).1

-- a history: each statement with the answer of the database to it
unfoldable pub run : List (Conn × Op) → Identities → Identities
unfolding step
run [] t = t
run ((c, op) ∷ ops) t = run ops (step c op t)

step-IsIndexed : (c : Conn) (op : Op) (t : Identities) → IsIndexed t → IsIndexed (step c op t)
unfolding step
step-IsIndexed c (inserts hosts ai) t k = insert-IsIndexed c hosts ai t k
step-IsIndexed c (revokes id reason) t k = revoke-IsIndexed c id reason t k

-- Whatever statements run on the table, in whatever order and with whatever failures, at most one
-- unrevoked identity has a given fingerprint, if that was so before.
pub run-IsIndexed : (ops : List (Conn × Op)) (t : Identities) → IsIndexed t → IsIndexed (run ops t)
unfolding run
run-IsIndexed [] t k = k
run-IsIndexed ((c, op) ∷ ops) t k = run-IsIndexed ops (step c op t) (step-IsIndexed c op t k)

abbrev ended : ℕ → String → AgentIdentity → AgentIdentity
ended now reason r = record r { revoked_at = some now; revoked_reason = some reason }

-- After a Revoke that worked, no identity with the id is unrevoked, and a second Revoke of it is
-- refused and changes nothing.
pub revoke_twice :
    (c c' : Conn) (id : ℕ) (reason reason' : String) (t : Identities)
    → (revoke c id reason t).0 ≡ ok tt
    → c'.up ≡ true
    → (exists_where (revocable id) (revoke c id reason t).1.rows ≡ false)
      × (revoke c' id reason' (revoke c id reason t).1
          ≡ (err not_found_or_used, (revoke c id reason t).1))
unfolding revoke
revoke_twice c c' id reason reason' t done up =
    let rows = update_where (revocable id) (ended c.now reason) t.rows in
    let gone = exists-update_none (revocable id) (ended c.now reason) (λ r. ground arith) t.rows in
    let same = update-absent (revocable id) (ended c'.now reason') rows gone in
    (ground (arith, done, gone), ground (arith, done, up, gone, same))
