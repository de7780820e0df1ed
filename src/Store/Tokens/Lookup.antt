-- ===== src/Store/Tokens/Lookup.antt =====
-- What one claim returns, and what List and ListActive return.
use praetor_server.Prelude.{
  ◌<◌, String, ◌≡◌, true, none, arith, In, eq_iff, inl, inr, Option-cases, ℕ,
}
use praetor_server.Result.{ok, Conn}
use praetor_server.Sql.{select, first, first-select-In, first-select-none}
use praetor_server.Store.Tokens.{EnrollmentToken, Tokens, claim, claimable}

-- What makes a token good for an enrollment: never used, not revoked, and not yet expired.
pub record IsUsable (now : ℕ) (h : String) (r : EnrollmentToken) : Type 0 where
  pub hash : r.token_hash ≡ h
  pub unused : r.used_at ≡ none
  pub kept : r.revoked_at ≡ none
  pub fresh : now < r.expires_at

claimable-IsUsable :
    (now : ℕ) (h : String) (r : EnrollmentToken) → claimable now h r ≡ true → IsUsable now h r
claimable-IsUsable now h r y = ground (arith, eq_iff r.token_hash h)

pub IsUsable-claimable :
    (now : ℕ) (h : String) (r : EnrollmentToken) → IsUsable now h r → claimable now h r ≡ true
IsUsable-claimable now h r u =
    ground (arith, eq_iff r.token_hash h, u.hash, u.unused, u.kept, u.fresh)

-- A successful claim returns a token of the table that has the hash, was never used or revoked, and
-- has not expired by the database's clock.
pub claim_sound :
    (c : Conn) (h : String) (rows : Tokens) (r : EnrollmentToken)
    → (claim c h rows).0 ≡ ok r
    → In r rows × IsUsable c.now h r
unfolding claim
claim_sound c h rows r e = elim (Option-cases (first (select (claimable c.now h) rows))) [
  | inl p ↦ ground arith
  | inr (a, p) ↦
      let same : a ≡ r = ground arith in
      rw (← same) (
        let (i, y) = first-select-In (claimable c.now h) a rows p in
        (i, claimable-IsUsable c.now h a y))
]

-- While the database answers, a claim succeeds whenever the table holds a usable token.
pub claim_complete :
    (c : Conn) (h : String) (rows : Tokens) (r : EnrollmentToken)
    → c.up ≡ true
    → In r rows
    → IsUsable c.now h r
    → (a : EnrollmentToken) × ((claim c h rows).0 ≡ ok a)
unfolding claim
claim_complete c h rows r up i u = elim (Option-cases (first (select (claimable c.now h) rows))) [
  | inl p ↦ absurd (
      ground
        (arith, IsUsable-claimable c.now h r u, first-select-none (claimable c.now h) r rows p i))
  | inr (a, p) ↦ (a, rw (up, p))
]
