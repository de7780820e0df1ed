-- ===== src/Store/Tokens.antt =====
-- internal/db/store/tokens.go, with the statement of internal/enrollment/service.go that claims a
-- token: the table enrollment_tokens and every statement that runs on it.
pub mod SingleUse
pub mod Lists
pub mod Revoked
pub mod Lookup
use praetor_server.Prelude.{
  ℕ, String, Bool, true, ◌&&◌, Option, none, some, List, [], ◌∷◌, ◌++◌, ltb, leb, if◌then◌else◌,
  ◌==◌, is_none, string_eq,
}
use praetor_server.Result.{
  Result, ok, err, no_rows, unique_violation, foreign_key_violation, not_found_or_used, Conn, exec,
}
use praetor_server.Sql.{select, first, update_where, exists_where, order_by}

pub record EnrollmentToken : Type 0 where
  pub id : String
  pub token_hash : String
  pub label : Option String
  pub org_id : String
  pub created_by : Option String
  pub created_at : ℕ
  pub expires_at : ℕ
  pub used_at : Option ℕ
  pub used_by_host_id : Option String
  pub revoked_at : Option ℕ

abbrev pub Tokens : Type 0
Tokens = List EnrollmentToken

abbrev pub has_id : String → EnrollmentToken → Bool
has_id id r = r.id == id

abbrev pub has_hash : String → EnrollmentToken → Bool
has_hash h r = r.token_hash == h

-- The columns that the INSERT leaves out are NULL, and created_at is NOW().
abbrev pub stored : ℕ → EnrollmentToken → EnrollmentToken
stored now t = record t {
  created_at = now;
  used_at = none;
  used_by_host_id = none;
  revoked_at = none;
}

-- Insert returns the token with CreatedAt set from the database.
unfoldable pub insert : Conn → EnrollmentToken → Tokens → Result EnrollmentToken × Tokens
insert c t rows = exec c rows (
    if exists_where (has_id t.id) rows
    then (err unique_violation, rows)
    else (ok (record t { created_at = c.now }), rows ++ stored c.now t ∷ []))

abbrev one_row {ℓ} : {A : Type ℓ} → Option A → Result A
one_row none = err no_rows
one_row (some r) = ok r

unfoldable pub get_by_id : Conn → String → Tokens → Result EnrollmentToken
get_by_id c id rows = (exec c rows (one_row (first (select (has_id id) rows)), rows)).0

abbrev pub usable_id : String → EnrollmentToken → Bool
usable_id id r = r.id == id && is_none r.used_at && is_none r.revoked_at

-- `RowsAffected() == 0` is an error of its own.
abbrev pub affected : Bool → Result (Unit {0}) → Result (Unit {0})
affected b e = if b then ok tt else e

-- what the three UPDATEs set in a row
abbrev pub mark_at : ℕ → String → EnrollmentToken → EnrollmentToken
mark_at now host_id r = record r { used_at = some now; used_by_host_id = some host_id }

abbrev pub revoke_at : ℕ → EnrollmentToken → EnrollmentToken
revoke_at now r = record r { revoked_at = some now }

abbrev pub link_to : String → EnrollmentToken → EnrollmentToken
link_to host_id r = record r { used_by_host_id = some host_id }

-- `hosts` says which ids the table hosts holds: used_by_host_id refers to it.
unfoldable pub mark_used :
    Conn → (String → Bool) → String → String → Tokens → Result (Unit {0}) × Tokens
mark_used c hosts id host_id rows = exec c rows (
    if exists_where (usable_id id) rows
    then (if hosts host_id
        then (ok tt, update_where (usable_id id) (mark_at c.now host_id) rows)
        else (err foreign_key_violation, rows))
    else (err not_found_or_used, rows))

abbrev pub revocable : String → EnrollmentToken → Bool
revocable id r = r.id == id && is_none r.revoked_at

unfoldable pub revoke : Conn → String → Tokens → Result (Unit {0}) × Tokens
revoke c id rows = exec c rows (
  affected (exists_where (revocable id) rows) (err no_rows),
  update_where (revocable id) (revoke_at c.now) rows,
)

-- ORDER BY created_at DESC
abbrev pub newer : EnrollmentToken → EnrollmentToken → Bool
newer a b = leb b.created_at a.created_at

-- The WHERE clause that List puts together.
abbrev pub listed : ℕ → String → Bool → Bool → EnrollmentToken → Bool
listed now org_id include_expired include_revoked r =
    r.org_id == org_id
    && is_none r.used_at
    && (if include_expired then true else ltb now r.expires_at)
    && (if include_revoked then true else is_none r.revoked_at)

unfoldable pub list : Conn → String → Bool → Bool → Tokens → Result Tokens
list c org_id include_expired include_revoked rows =
    (exec c rows (
      ok (order_by newer (select (listed c.now org_id include_expired include_revoked) rows)),
      rows,
    )).0

abbrev pub active : ℕ → String → EnrollmentToken → Bool
active now org_id r =
    r.org_id == org_id && is_none r.used_at && is_none r.revoked_at && ltb now r.expires_at

unfoldable pub list_active : Conn → String → Tokens → Result Tokens
list_active c org_id rows =
    (exec c rows (ok (order_by newer (select (active c.now org_id) rows)), rows)).0

-- The statement of Enroll: UPDATE ... SET used_at = NOW() WHERE ... RETURNING id, org_id, of which
-- Scan reads the first row. `token_hash` has no unique index, so every row that matches is updated.
abbrev pub claimable : ℕ → String → EnrollmentToken → Bool
claimable now h r =
    r.token_hash == h && is_none r.used_at && is_none r.revoked_at && ltb now r.expires_at

abbrev pub use_at : ℕ → EnrollmentToken → EnrollmentToken
use_at now r = record r { used_at = some now }

unfoldable pub claim : Conn → String → Tokens → Result EnrollmentToken × Tokens
claim c h rows = exec c rows (
  one_row (first (select (claimable c.now h) rows)),
  update_where (claimable c.now h) (use_at c.now) rows,
)

-- The statement of Enroll that links the token to its host.
unfoldable pub link_host :
    Conn → (String → Bool) → String → String → Tokens → Result (Unit {0}) × Tokens
link_host c hosts id host_id rows = exec c rows (
    if exists_where (has_id id) rows
    then (if hosts host_id
        then (ok tt, update_where (has_id id) (link_to host_id) rows)
        else (err foreign_key_violation, rows))
    else (ok tt, rows))
