-- ===== src/Api/Tokens.antt =====
-- internal/api/handler.go: the handlers of enrollment tokens.
pub mod Issued
use praetor_server.Prelude.{
  ℕ, ◌+◌, ◌-◌, ◌*◌, ◌%◌, ◌^◌, ℤ, pos, negsuc, String, Bool, true, false, Option, none, some, List,
  [], ◌∷◌, map, Bytes, codes, ltb, if◌then◌else◌, ◌==◌, string_eq, ◌||◌, nat_beq, ◌&&◌,
}
use praetor_server.Result.{Error, Result, ok, err, no_rows, Conn}
use praetor_server.Token
use praetor_server.Token.{Token, generate, split}
use praetor_server.Store.Tokens
use praetor_server.Store.Tokens.{EnrollmentToken, Tokens}
use praetor_server.Api.{
  ApiError, Reply, failure, success, bad_json, label_required, ttl_too_long, internal, not_found,
}
use praetor_server.Api.Auth.{bytes_eq}

-- the ASCII part of what strings.TrimSpace cuts off
abbrev is_space : ℕ → Bool
is_space c = nat_beq c 32 || (ltb 8 c && ltb c 14)

unfoldable pub trim_left : Bytes → Bytes
trim_left [] = []
trim_left (c ∷ s) = let rest = trim_left s in if is_space c then rest else c ∷ s

abbrev keep : ℕ → Bytes → Bytes
keep c [] = if is_space c then [] else c ∷ []
keep c (d ∷ s) = c ∷ d ∷ s

unfoldable pub trim_right : Bytes → Bytes
trim_right [] = []
trim_right (c ∷ s) = keep c (trim_right s)

unfoldable pub any_is : Bytes → List Bytes → Bool
any_is target [] = false
any_is target (v ∷ vs) =
    let rest = any_is target vs in if bytes_eq (trim_right (trim_left v)) target then true else rest

-- is `target` one of the comma-separated values?
unfoldable pub contains : Bytes → Bytes → Bool
contains csv target = any_is target (split b',' csv)

-- A token without its hash.
pub record TokenResponse : Type 0 where
  pub id : String
  pub label : Option String
  pub org_id : String
  pub created_at : ℕ
  pub expires_at : ℕ
  pub used_at : Option ℕ
  pub used_by_host_id : Option String
  pub revoked_at : Option ℕ

abbrev pub to_token_response : EnrollmentToken → TokenResponse
to_token_response t = record {
  id = t.id;
  label = t.label;
  org_id = t.org_id;
  created_at = t.created_at;
  expires_at = t.expires_at;
  used_at = t.used_at;
  used_by_host_id = t.used_by_host_id;
  revoked_at = t.revoked_at;
}

abbrev listed : Result Tokens → Reply (List TokenResponse)
listed (err e) = failure internal
listed (ok ts) = success 200 (map to_token_response ts)

unfoldable pub handle_list_tokens : Conn → String → Bytes → Tokens → Reply (List TokenResponse)
handle_list_tokens c org_id include tokens = listed (
    Tokens.list c org_id (contains include (codes "expired")) (contains include (codes "revoked"))
      tokens)

-- The body of the request; a TTLSeconds that is not in it is 0.
pub record IssueTokenRequest : Type 0 where
  pub label : String
  pub ttl_seconds : ℤ

pub record IssueTokenResponse : Type 0 where
  pub id : String
  pub token : Bytes
  pub label : String
  pub expires_at : ℕ

-- A duration in nanoseconds is an int64: the product wraps around.
abbrev pub signed_64 : ℕ → ℤ
signed_64 m = if ltb m (2 ^ 63) then pos m else negsuc (2 ^ 64 - 1 - m)

abbrev pub second : ℕ
second = 1_000_000_000

-- defaultTokenTTL and maxTokenTTL
abbrev pub default_ttl : ℕ
default_ttl = 15 * 60 * second

abbrev pub max_ttl : ℕ
max_ttl = 24 * 3_600 * second

unfoldable pub ttl_of : ℤ → ℤ
ttl_of (pos n) = if nat_beq n 0 then pos default_ttl else signed_64 ((n * second) % 2 ^ 64)
ttl_of (negsuc n) = pos default_ttl

abbrev pub exceeds_max : ℤ → Bool
exceeds_max (pos n) = ltb max_ttl n
exceeds_max (negsuc n) = false

-- time.Now().Add(ttl). An instant from before 1970 is 0 here.
abbrev pub add_ttl : ℕ → ℤ → ℕ
add_ttl now (pos n) = now + n
add_ttl now (negsuc n) = now - (n + 1)

abbrev pub row_of : Token → String → String → ℕ → ℕ → EnrollmentToken
row_of tok label org_id now expires_at = record {
  id = tok.id;
  token_hash = tok.hash;
  label = some label;
  org_id = org_id;
  created_by = none;
  created_at = now;
  expires_at = expires_at;
  used_at = none;
  used_by_host_id = none;
  revoked_at = none;
}

abbrev stored :
    Token → String → ℕ → Result EnrollmentToken × Tokens → Reply IssueTokenResponse × Tokens
stored tok label expires_at (err e, rows) = (failure internal, rows)
stored tok label expires_at (ok t, rows) = (
  success 201 (record { id = tok.id; token = tok.plain; label = label; expires_at = expires_at }),
  rows,
)

unfoldable pub with_token :
    Conn → String → String → ℕ → ℤ → Option Token → Tokens → Reply IssueTokenResponse × Tokens
with_token c org_id label now ttl none rows = (failure internal, rows)
with_token c org_id label now ttl (some tok) rows =
    stored tok label (add_ttl now ttl)
      (Tokens.insert c (row_of tok label org_id now (add_ttl now ttl)) rows)

-- `body` is `none` if the body is no JSON for the request; `token` is what token.Generate makes.
unfoldable pub handle_issue_token :
    Conn
    → String
    → ℕ
    → Option Token
    → Option IssueTokenRequest
    → Tokens
    → Reply IssueTokenResponse × Tokens
handle_issue_token c org_id now token none rows = (failure bad_json, rows)
handle_issue_token c org_id now token (some req) rows =
    if req.label == ""
    then (failure label_required, rows)
    else if exceeds_max (ttl_of req.ttl_seconds)
    then (failure ttl_too_long, rows)
    else with_token c org_id req.label now (ttl_of req.ttl_seconds) token rows

abbrev revoked : Result (Unit {0}) × Tokens → Reply (Unit {0}) × Tokens
revoked (ok u, rows) = (success 204 tt, rows)
revoked (err no_rows, rows) = (failure not_found, rows)
revoked (err _, rows) = (failure internal, rows)

unfoldable pub handle_revoke_token : Conn → String → Tokens → Reply (Unit {0}) × Tokens
handle_revoke_token c id rows = revoked (Tokens.revoke c id rows)
