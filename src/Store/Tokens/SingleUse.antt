-- ===== src/Store/Tokens/SingleUse.antt =====
-- Histories of the statements on enrollment_tokens, and how often a hash is claimed in them.
use praetor_server.Prelude.{
  ℕ, ◌+◌, ◌≤◌, String, ◌≡◌, Bool, true, false, ◌&&◌, some, List, [], ◌∷◌, if◌then◌else◌, arith,
  ◌==◌, is_none, string_eq, eq_iff, inl, inr, Bool-cases, Option-cases,
}
use praetor_server.Result.{Result, ok, err, Conn}
use praetor_server.Sql.{
  select, first, update_where, count_where, count-append, count-update-le, count-update-lt,
}
use praetor_server.Store.Tokens.{
  EnrollmentToken, Tokens, insert, mark_used, revoke, claim, link_host, claimable, use_at,
  revocable, usable_id, has_id, stored, revoke_at, mark_at, link_to,
}

-- What the server does to the table.
pub data Op : Type 0 where
  inserts : EnrollmentToken → Op
  claims : String → Op
  marks : String → String → Op
  revokes : String → Op
  links : String → String → Op

abbrev pub is_ok {ℓ} : {A : Type ℓ} → Result A → ℕ
is_ok (ok a) = 1
is_ok (err e) = 0

unfoldable pub step : (String → Bool) → Conn → Op → Tokens → Tokens
step hosts c (inserts t) rows = (insert c t rows).1
step hosts c (claims h) rows = (claim c h rows).1
step hosts c (marks id host_id) rows = (mark_used c hosts id host_id rows).1
step hosts c (revokes id) rows = (revoke c id rows).1
step hosts c (links id host_id) rows = (link_host c hosts id host_id rows).1

-- how often a token with the hash `h` is claimed, and how often one is inserted
unfoldable pub claimed : String → Conn → Op → Tokens → ℕ
claimed h c (claims k) rows = if k == h then is_ok (claim c k rows).0 else 0
claimed h c _ rows = 0

unfoldable pub inserted : String → Conn → Op → Tokens → ℕ
inserted h c (inserts t) rows = if t.token_hash == h then is_ok (insert c t rows).0 else 0
inserted h c _ rows = 0

abbrev unused : String → EnrollmentToken → Bool
unused h r = r.token_hash == h && is_none r.used_at

-- What each UPDATE does to one row, as the count of unused rows sees it.
claimable_row :
    (now : ℕ) (h : String) (r : EnrollmentToken)
    → claimable now h r ≡ true
    → (unused h r ≡ true) × (unused h (use_at now r) ≡ false)
claimable_row now h r y = ground arith

module _ (c : Conn) (h : String) (rows : Tokens) where
  claim_uses :
      (a : EnrollmentToken)
      → first (select (claimable c.now h) rows) ≡ some a
      → count_where (unused h) (update_where (claimable c.now h) (use_at c.now) rows) + 1
        ≤ count_where (unused h) rows
  claim_uses a =
      count-update-lt (claimable c.now h) (use_at c.now) (unused h) a rows (claimable_row c.now h)

  claim_keeps :
      (k : String)
      → count_where (unused h) (update_where (claimable c.now k) (use_at c.now) rows)
        ≤ count_where (unused h) rows
  claim_keeps k =
      count-update-le (claimable c.now k) (use_at c.now) (unused h) rows (λ r y z. ground arith)

  revoke_keeps :
      (id : String) → count_where (unused h) (revoke c id rows).1 ≤ count_where (unused h) rows
  unfolding revoke
  revoke_keeps id = ground (arith, keeps)
    where
      keeps :
          count_where (unused h) (update_where (revocable id) (revoke_at c.now) rows)
          ≤ count_where (unused h) rows
      keeps = count-update-le (revocable id) (revoke_at c.now) (unused h) rows (λ r y z. z)

  -- A claim uses up at least one unused token with its hash.
  claim-unused :
      is_ok (claim c h rows).0 + count_where (unused h) (claim c h rows).1
      ≤ count_where (unused h) rows
  unfolding claim
  claim-unused = elim (Option-cases (first (select (claimable c.now h) rows))) [
    | inl e ↦ ground (arith, claim_keeps h)
    | inr (a, e) ↦ ground (arith, claim_keeps h, claim_uses a)
  ]

  claim_other :
      (k : String) → count_where (unused h) (claim c k rows).1 ≤ count_where (unused h) rows
  unfolding claim
  claim_other k = ground (arith, claim_keeps k)

  mark_keeps :
      (hosts : String → Bool) (id host_id : String)
      → count_where (unused h) (mark_used c hosts id host_id rows).1 ≤ count_where (unused h) rows
  unfolding mark_used
  mark_keeps hosts id host_id = ground (arith, keeps)
    where
      keeps :
          count_where (unused h) (update_where (usable_id id) (mark_at c.now host_id) rows)
          ≤ count_where (unused h) rows
      keeps =
          count-update-le (usable_id id) (mark_at c.now host_id) (unused h) rows
            (λ r y z. ground arith)

  link_keeps :
      (hosts : String → Bool) (id host_id : String)
      → count_where (unused h) (link_host c hosts id host_id rows).1 ≤ count_where (unused h) rows
  unfolding link_host
  link_keeps hosts id host_id = ground (arith, keeps)
    where
      keeps :
          count_where (unused h) (update_where (has_id id) (link_to host_id) rows)
          ≤ count_where (unused h) rows
      keeps = count-update-le (has_id id) (link_to host_id) (unused h) rows (λ r y z. z)

  insert-unused :
      (t : EnrollmentToken)
      → count_where (unused h) (insert c t rows).1
        ≤ count_where (unused h) rows + (if t.token_hash == h then is_ok (insert c t rows).0 else 0)
  unfolding insert count_where
  insert-unused t = ground (arith, count-append (unused h) rows (stored c.now t ∷ []))

step-unused :
    (hosts : String → Bool) (h : String) (c : Conn) (op : Op) (rows : Tokens)
    → claimed h c op rows + count_where (unused h) (step hosts c op rows)
      ≤ count_where (unused h) rows + inserted h c op rows
unfolding step claimed inserted
step-unused hosts h c (inserts t) rows = omega (arith, insert-unused c h rows t)
step-unused hosts h c (claims k) rows = elim (Bool-cases (k == h)) [
  | inl y ↦ let e : k ≡ h = (eq_iff k h).0 y in rw y (rw e (omega (arith, claim-unused c h rows)))
  | inr n ↦ rw n (omega (arith, claim_other c h rows k))
]
step-unused hosts h c (marks id host_id) rows = omega (arith, mark_keeps c h rows hosts id host_id)
step-unused hosts h c (revokes id) rows = omega (arith, revoke_keeps c h rows id)
step-unused hosts h c (links id host_id) rows = omega (arith, link_keeps c h rows hosts id host_id)

-- A history: each statement with the answer of the database to it.
abbrev pub History : Type 0
History = List (Conn × Op)

module _ (hosts : String → Bool) where
  unfoldable pub run : History → Tokens → Tokens
  run [] rows = rows
  run ((c, op) ∷ rest) rows = run rest (step hosts c op rows)

  -- the successful claims of `h`, and the insertions of a token with that hash, in a history
  unfoldable pub claims_of : String → History → Tokens → ℕ
  claims_of h [] rows = 0
  claims_of h ((c, op) ∷ rest) rows = claimed h c op rows + claims_of h rest (step hosts c op rows)

  unfoldable pub inserts_of : String → History → Tokens → ℕ
  inserts_of h [] rows = 0
  inserts_of h ((c, op) ∷ rest) rows =
      inserted h c op rows + inserts_of h rest (step hosts c op rows)

  claims-le :
      (h : String) (hs : History) (rows : Tokens)
      → claims_of h hs rows ≤ count_where (unused h) rows + inserts_of h hs rows
  unfolding claims_of inserts_of
  claims-le h [] rows = omega arith
  claims-le h ((c, op) ∷ rest) rows =
      omega (arith, step-unused hosts h c op rows, claims-le h rest (step hosts c op rows))

  -- Whatever statements run on the table from when it is empty, in whatever order and with whatever
  -- failures and clock readings, a token hash is claimed successfully at most as often as a token
  -- with that hash was inserted: an enrollment token works once.
  pub claims-le-inserts : (h : String) (hs : History) → claims_of h hs [] ≤ inserts_of h hs []
  unfolding count_where
  claims-le-inserts h hs = omega (arith, claims-le h hs [])
