-- ===== src/Tests/Tokens.antt =====
-- Runs of the token store and of the token format.
use praetor_server.Prelude.{◌≤◌, String, ◌≡◌, ◌≢◌, ◌↔◌, refl, none, [], ◌∷◌, arith, codes, Bytes}
use praetor_server.Result.{ok}
use praetor_server.Sql.{select, exists_where, update_where}
use praetor_server.Store.Tokens.{EnrollmentToken, claim, revoke}
use praetor_server.Store.Tokens.SingleUse.{
  inserts, claims, History, claims_of, inserts_of, claims-le-inserts, run,
}
use praetor_server.Store.Tokens.Revoked.{revoked_never_claimed}
use praetor_server.Token.{parse_and_validate, base32_encode}
use praetor_server.Token.Format.{IsToken, accepts_iff}
use praetor_server.Token.Base32.{done, five, decode, decode-base32_encode}
use praetor_server.Tests.Data.{up_at, a_token, any_host}

abbrev hash : String
hash = "PRAETOR-00000-11111-22222-33333-44444"

abbrev history : History
history = (up_at 1, inserts a_token) ∷ (up_at 2, claims hash) ∷ (up_at 3, claims hash) ∷ []

claims-le-inserts_example : claims_of any_host hash history [] ≤ inserts_of any_host hash history []
claims-le-inserts_example = claims-le-inserts any_host hash history

-- another token, which can be claimed after the first was revoked
abbrev other : EnrollmentToken
other = record a_token { id = "t2"; token_hash = "other" }

revoked_ok : (revoke (up_at 5) "t1" (a_token ∷ other ∷ [])).0 ≡ ok tt
unfolding revoke exists_where
revoked_ok = refl

claimed_ok :
    (claim (up_at 6) "other" (run any_host [] (revoke (up_at 5) "t1" (a_token ∷ other ∷ [])).1)).0
    ≡ ok other
unfolding claim run revoke update_where select
claimed_ok = refl

revoked_never_claimed_example : other.id ≢ "t1"
revoked_never_claimed_example =
    revoked_never_claimed any_host (up_at 5) (up_at 6) "t1" "other" [] (a_token ∷ other ∷ []) other
      revoked_ok claimed_ok

accepts_iff_example :
    (parse_and_validate (codes "PRAETOR-00000-11111-22222-33333-44444") ≡ none)
    ↔ IsToken (codes "PRAETOR-00000-11111-22222-33333-44444")
accepts_iff_example = accepts_iff (codes "PRAETOR-00000-11111-22222-33333-44444")

abbrev five_bytes : Bytes
five_bytes = 0 ∷ 255 ∷ 7 ∷ 128 ∷ 1 ∷ []

decode-base32_encode_example : decode (base32_encode five_bytes) ≡ five_bytes
decode-base32_encode_example =
    decode-base32_encode five_bytes (
      five 0 255 7 128 1 (omega arith) (omega arith) (omega arith) (omega arith) (omega arith) done)

abbrev random : Bytes
random =
    1 ∷ 2 ∷ 3 ∷ 4 ∷ 5 ∷ 6 ∷ 7 ∷ 8 ∷ 9 ∷ 10 ∷ 11 ∷ 12 ∷ 13 ∷ 14 ∷ 15 ∷ 16 ∷ 17 ∷ 18 ∷ 19 ∷ 20 ∷ 21
    ∷ 22 ∷ 23 ∷ 24 ∷ 25 ∷ []

abbrev no_hash : Bytes → String
no_hash b = "hash"
