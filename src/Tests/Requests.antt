-- ===== src/Tests/Requests.antt =====
-- Runs of the other REST handlers.
use praetor_server.Prelude.{
  ◌+◌, ◌*◌, ◌<◌, pos, String, ◌≡◌, ◌≢◌, refl, true, false, none, some, List, [], ◌∷◌, arith, eq_iff,
  Bytes,
}
use praetor_server.Result.{ok, Conn}
use praetor_server.Sql.{exists_where}
use praetor_server.Token.{generate, parse_and_validate}
use praetor_server.Store.Tokens.{EnrollmentToken, has_id, claim}
use praetor_server.Api.{Reply, success}
use praetor_server.Api.Tokens.{IssueTokenResponse, handle_issue_token, second}
use praetor_server.Api.Tokens.Issued.{issued_claimable}
use praetor_server.Tests.Data.{up_at, a_token}

abbrev no_hash : Bytes → String
no_hash b = "hash"

abbrev random : Bytes
random =
    1 ∷ 2 ∷ 3 ∷ 4 ∷ 5 ∷ 6 ∷ 7 ∷ 8 ∷ 9 ∷ 10 ∷ 11 ∷ 12 ∷ 13 ∷ 14 ∷ 15 ∷ 16 ∷ 17 ∷ 18 ∷ 19 ∷ 20 ∷ 21
    ∷ 22 ∷ 23 ∷ 24 ∷ 25 ∷ []

abbrev label : String
label = "rack"

labelled : label ≢ ""
labelled e = ground (arith, e, eq_iff "rack" "")

unused : exists_where (has_id "t9") (a_token ∷ []) ≡ false
unfolding exists_where
unused = refl

abbrev issued : Reply IssueTokenResponse × List EnrollmentToken
issued =
    handle_issue_token (up_at 3) "acme" 3 (generate no_hash (some random) "t9")
      (some (record { label = "rack"; ttl_seconds = pos 900 })) (a_token ∷ [])

issued_claimable_example :
    (resp : IssueTokenResponse) × (issued.0 ≡ success 201 resp)
    × (parse_and_validate resp.token ≡ none)
    × (resp.expires_at ≡ 3 + 900 * second)
    × ((c' : Conn)
        → c'.up ≡ true
        → c'.now < 3 + 900 * second
        → (a : EnrollmentToken) × ((claim c' (no_hash resp.token) issued.1).0 ≡ ok a))
issued_claimable_example =
    issued_claimable (up_at 3) "acme" 3 (a_token ∷ []) no_hash random "t9" "rack" 900 refl labelled
      (omega arith) (omega arith) refl unused
