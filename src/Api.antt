-- ===== src/Api.antt =====
-- internal/api: the REST handlers, as functions from the decoded request to the reply. Routing, JSON
-- and the access log are net/http's and encoding/json's.
pub mod Auth
pub mod Tokens
pub mod Commands
pub mod Queries
pub mod Routes
use praetor_server.Prelude.{
  ℕ, zero, suc, ◌+◌, ◌-◌, ◌*◌, ◌^◌, ℤ, pos, negsuc, Bool, true, false, ◌&&◌, Option, none, some,
  List, [], ◌∷◌, Bytes, ltb, leb, nat_beq, if◌then◌else◌,
}

-- The errors that the handlers write; the argument of `broker_failed` is not part of the status.
pub data ApiError : Type 0 where
  unauthorized bad_json label_required ttl_too_long host_id_required reason_required : ApiError
  bad_tier bad_check binary_required command_required bad_limit bad_since : ApiError
  not_found internal broker_failed : ApiError

-- the HTTP status of writeError
abbrev pub status_of : ApiError → ℕ
status_of unauthorized = 401
status_of not_found = 404
status_of internal = 500
status_of broker_failed = 500
status_of _ = 400

-- A reply: an error, or a status with a body.
pub data Reply (B : Type 0) : Type 0 where
  failure : ApiError → Reply B
  success : ℕ → B → Reply B

-- the digits of a number, read from the left
unfoldable pub digits : ℕ → Bytes → Option ℕ
digits n [] = some n
digits n (c ∷ s) =
    let rest = digits (n * 10 + (c - b'0')) s in if leb b'0' c && leb c b'9' then rest else none

abbrev within : ℕ → (ℕ → ℤ) → Option ℕ → Option ℤ
within bound sign none = none
within bound sign (some n) = if leb n bound then some (sign n) else none

abbrev pub number : Bytes → Option ℕ
number [] = none
number (c ∷ s) = digits 0 (c ∷ s)

abbrev negative : ℕ → ℤ
negative zero = pos 0
negative (suc n) = negsuc n

-- strconv.Atoi on 64 bits
unfoldable pub atoi : Bytes → Option ℤ
atoi [] = none
atoi (c ∷ s) =
    if nat_beq c b'-'
    then within (2 ^ 63) negative (number s)
    else if nat_beq c b'+'
    then within (2 ^ 63 - 1) pos (number s)
    else within (2 ^ 63 - 1) pos (number (c ∷ s))

-- A limit of the query: the default without one, an error unless it is a positive number, and never
-- above the maximum.
abbrev capped : ℕ → Option ℤ → Option ℕ
capped max (some (pos (suc n))) = some (if ltb max (suc n) then max else suc n)
capped max _ = none

unfoldable pub limit_of : ℕ → ℕ → Bytes → Option ℕ
limit_of default max [] = some default
limit_of default max (c ∷ s) = capped max (atoi (c ∷ s))
