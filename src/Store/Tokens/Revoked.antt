-- ===== src/Store/Tokens/Revoked.antt =====
-- Histories of statements after Revoke.
use praetor_server.Prelude.{String, ◌≡◌, ◌≢◌, refl, Bool, true, arith, eq_iff, ◌∙◌, ◌∷◌, []}
use praetor_server.Result.{ok, Conn}
use praetor_server.Sql.{
  exists_where, count_where, exists-update, count-update-le, update_where, count-update-zero,
  exists_mono, count-append, count-pos, exists-append,
}
use praetor_server.Store.Tokens.{
  EnrollmentToken, Tokens, insert, mark_used, revoke, claim, link_host, claimable, use_at, has_id,
  usable_id, revocable, stored, revoke_at, mark_at, link_to,
}
use praetor_server.Store.Tokens.SingleUse.{
  Op, inserts, claims, marks, revokes, links, step, History, run,
}
use praetor_server.Store.Tokens.Lookup.{claim_sound}

-- The table holds the id, and no row with it is left unrevoked.
record IsDead (id : String) (rows : Tokens) : Type 0 where
  present : exists_where (has_id id) rows ≡ true
  none_left : count_where (revocable id) rows ≡ 0

module _ (id : String) (p : EnrollmentToken → Bool) (f : EnrollmentToken → EnrollmentToken)
    (same_id : (r : EnrollmentToken) → has_id id (f r) ≡ has_id id r)
    (no_revival : (r : EnrollmentToken)
      → p r ≡ true
      → revocable id (f r) ≡ true
      → revocable id r ≡ true)
    (rows : Tokens) where
  update-IsDead : IsDead id rows → IsDead id (update_where p f rows)
  update-IsDead d = record {
    present = exists-update (has_id id) p f rows same_id ∙ d.present;
    none_left = omega (arith, d.none_left, count-update-le p f (revocable id) rows no_revival);
  }

module _ (c : Conn) (id : String) (rows : Tokens) where
  revoke_none_left :
      count_where (revocable id) (update_where (revocable id) (revoke_at c.now) rows) ≡ 0
  revoke_none_left =
      count-update-zero (revocable id) (revoke_at c.now) (revocable id) rows (λ r. ground arith)

  revoke_present :
      exists_where (revocable id) rows ≡ true
      → exists_where (has_id id) (update_where (revocable id) (revoke_at c.now) rows) ≡ true
  revoke_present h =
      exists-update (has_id id) (revocable id) (revoke_at c.now) rows (λ r. refl)
      ∙ exists_mono (revocable id) (has_id id) (λ r y. ground arith) rows h

  revoke-IsDead : (revoke c id rows).0 ≡ ok tt → IsDead id (revoke c id rows).1
  unfolding revoke
  revoke-IsDead h = ground (arith, revoke_none_left, revoke_present)

  insert-IsDead : (t : EnrollmentToken) → IsDead id rows → IsDead id (insert c t rows).1
  unfolding insert count_where
  insert-IsDead t d = ground (
    arith,
    d.present,
    d.none_left,
    eq_iff t.id id,
    count-append (revocable id) rows (stored c.now t ∷ []),
    exists-append (has_id id) rows (stored c.now t),
  )

  claim-IsDead : (h : String) → IsDead id rows → IsDead id (claim c h rows).1
  unfolding claim
  claim-IsDead h d = ground (
    arith,
    d,
    update-IsDead id (claimable c.now h) (use_at c.now) (λ r. refl) (λ r y z. z) rows d,
  )

  mark-IsDead :
      (hosts : String → Bool) (i host_id : String)
      → IsDead id rows
      → IsDead id (mark_used c hosts i host_id rows).1
  unfolding mark_used
  mark-IsDead hosts i host_id d = ground (
    arith,
    d,
    update-IsDead id (usable_id i) (mark_at c.now host_id) (λ r. refl) (λ r y z. z) rows d,
  )

  revoke_again-IsDead : (i : String) → IsDead id rows → IsDead id (revoke c i rows).1
  unfolding revoke
  revoke_again-IsDead i d = ground (
    arith,
    d,
    update-IsDead id (revocable i) (revoke_at c.now) (λ r. refl) (λ r y z. ground arith) rows d,
  )

  link-IsDead :
      (hosts : String → Bool) (i host_id : String)
      → IsDead id rows
      → IsDead id (link_host c hosts i host_id rows).1
  unfolding link_host
  link-IsDead hosts i host_id d =
      ground
        (arith, d, update-IsDead id (has_id i) (link_to host_id) (λ r. refl) (λ r y z. z) rows d)

step-IsDead :
    (hosts : String → Bool) (id : String) (c : Conn) (op : Op) (rows : Tokens)
    → IsDead id rows
    → IsDead id (step hosts c op rows)
unfolding step
step-IsDead hosts id c (inserts t) rows d = insert-IsDead c id rows t d
step-IsDead hosts id c (claims k) rows d = claim-IsDead c id rows k d
step-IsDead hosts id c (marks i host_id) rows d = mark-IsDead c id rows hosts i host_id d
step-IsDead hosts id c (revokes i) rows d = revoke_again-IsDead c id rows i d
step-IsDead hosts id c (links i host_id) rows d = link-IsDead c id rows hosts i host_id d

run-IsDead :
    (hosts : String → Bool) (id : String) (hs : History) (rows : Tokens)
    → IsDead id rows
    → IsDead id (run hosts hs rows)
unfolding run
run-IsDead hosts id [] rows d = d
run-IsDead hosts id ((c, op) ∷ rest) rows d =
    run-IsDead hosts id rest (step hosts c op rows) (step-IsDead hosts id c op rows d)

dead_not_claimed :
    (c : Conn) (id h : String) (rows : Tokens) (r : EnrollmentToken)
    → IsDead id rows
    → (claim c h rows).0 ≡ ok r
    → r.id ≢ id
dead_not_claimed c id h rows r d e same =
    let (i, u) = claim_sound c h rows r e in
    let y : revocable id r ≡ true = ground (arith, eq_iff r.id id, u.kept) in
    absurd (omega (arith, d.none_left, count-pos (revocable id) r rows i y))

-- Once Revoke has succeeded for an id, no statement that runs later, after any history and at any
-- clock reading, claims the token with that id.
pub revoked_never_claimed :
    (hosts : String → Bool) (c c' : Conn) (id h : String) (hs : History) (rows : Tokens)
    (r : EnrollmentToken)
    → (revoke c id rows).0 ≡ ok tt
    → (claim c' h (run hosts hs (revoke c id rows).1)).0 ≡ ok r
    → r.id ≢ id
revoked_never_claimed hosts c c' id h hs rows r done e =
    dead_not_claimed c' id h (run hosts hs (revoke c id rows).1) r
      (run-IsDead hosts id hs (revoke c id rows).1 (revoke-IsDead c id rows done)) e
