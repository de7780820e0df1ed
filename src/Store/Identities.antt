-- ===== src/Store/Identities.antt =====
-- internal/db/store/identities.go: the table agent_identities.
pub mod Validity
use praetor_server.Prelude.{
  ℕ, ◌+◌, String, Bool, ◌&&◌, Option, none, some, List, [], ◌∷◌, ◌++◌, leb, if◌then◌else◌, ◌==◌,
  is_none, string_eq, nat_eq,
}
use praetor_server.Result.{
  Result, ok, err, no_rows, unique_violation, foreign_key_violation, not_found_or_used, Conn, exec,
}
use praetor_server.Sql.{select, first, update_where, exists_where, order_by}

pub record AgentIdentity : Type 0 where
  pub id : ℕ
  pub host_id : String
  pub cert_pem : String
  pub cert_fingerprint : String
  pub issued_at : ℕ
  pub expires_at : ℕ
  pub revoked_at : Option ℕ
  pub revoked_reason : Option String

-- The rows, and the next value of the sequence that numbers them.
pub record Identities : Type 0 where
  pub rows : List AgentIdentity
  pub next_id : ℕ

-- the unique index: one row for each fingerprint that is not revoked
abbrev pub valid_fingerprint : String → AgentIdentity → Bool
valid_fingerprint fp r = r.cert_fingerprint == fp && is_none r.revoked_at

abbrev pub stored : ℕ → ℕ → AgentIdentity → AgentIdentity
stored id now ai = record ai { id = id; issued_at = now; revoked_at = none; revoked_reason = none }

-- Insert returns the identity with ID and IssuedAt from the database. A refused INSERT uses up its
-- number too.
unfoldable pub insert :
    Conn → (String → Bool) → AgentIdentity → Identities → Result AgentIdentity × Identities
insert c hosts ai t = exec c t (
    if exists_where (valid_fingerprint ai.cert_fingerprint) t.rows
    then (err unique_violation, record t { next_id = t.next_id + 1 })
    else if hosts ai.host_id
    then (
      ok (record ai { id = t.next_id; issued_at = c.now }),
      record { rows = t.rows ++ stored t.next_id c.now ai ∷ []; next_id = t.next_id + 1 },
    )
    else (err foreign_key_violation, record t { next_id = t.next_id + 1 }))

abbrev one_row : Option AgentIdentity → Result AgentIdentity
one_row none = err no_rows
one_row (some r) = ok r

unfoldable pub get_by_cert_fingerprint : Conn → String → Identities → Result AgentIdentity
get_by_cert_fingerprint c fp t =
    (exec c t (one_row (first (select (λ r. r.cert_fingerprint == fp) t.rows)), t)).0

abbrev pub newest : AgentIdentity → AgentIdentity → Bool
newest a b = leb b.issued_at a.issued_at

abbrev pub current : String → AgentIdentity → Bool
current host_id r = r.host_id == host_id && is_none r.revoked_at

unfoldable pub get_current_by_host_id : Conn → String → Identities → Result AgentIdentity
get_current_by_host_id c host_id t =
    (exec c t (one_row (first (order_by newest (select (current host_id) t.rows))), t)).0

abbrev pub revocable : ℕ → AgentIdentity → Bool
revocable id r = r.id == id && is_none r.revoked_at

unfoldable pub revoke : Conn → ℕ → String → Identities → Result (Unit {0}) × Identities
revoke c id reason t = exec c t (
  (if exists_where (revocable id) t.rows then ok tt else err not_found_or_used),
  record t {
    rows =
        update_where (revocable id)
          (λ r. record r { revoked_at = some c.now; revoked_reason = some reason }) t.rows;
  },
)
