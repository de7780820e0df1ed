-- ===== src/Api/Tokens/Issued.antt =====
-- What POST /v1/tokens answers, and what it stores.
use praetor_server.Prelude.{
  In-last, ℕ, ◌+◌, ◌*◌, ◌≤◌, ◌<◌, pos, String, ◌≡◌, ◌≢◌, refl, ap, sym, subst, true, false, Option,
  none, some, [], ◌∷◌, ◌++◌, arith, Bytes, length, eq_iff, string_eq, nat_beq_iff,
}
use praetor_server.Result.{ok, Conn}
use praetor_server.Sql.{exists_where}
use praetor_server.Token.{Token, generate, parse_and_validate}
use praetor_server.Token.Generated.{generate_accepted}
use praetor_server.Store.Tokens
use praetor_server.Store.Tokens.{EnrollmentToken, Tokens, has_id, claim, claimable}
use praetor_server.Store.Tokens.Lookup.{IsUsable, claim_complete}
use praetor_server.Api.{failure, success, ttl_too_long}
use praetor_server.Api.Tokens.{
  IssueTokenResponse, handle_issue_token, with_token, ttl_of, second, row_of,
}

-- Without a wrap-around the TTL is the one that was asked for.
ttl_exact : (n : ℕ) → 1 ≤ n → n ≤ 9_223_372_036 → ttl_of (pos n) ≡ pos (n * second)
unfolding ttl_of
ttl_exact n lo hi = ground (arith, nat_beq_iff n 0)

module _ (c : Conn) (org_id : String) (now : ℕ) (rows : Tokens) where
  -- A request for more than a day, and less than the wrap-around of an int64, is refused; nothing is
  -- stored.
  pub ttl_refused :
      (tok : Option Token) (label : String) (n : ℕ)
      → label ≢ ""
      → 86_400 < n
      → n ≤ 9_223_372_036
      → handle_issue_token c org_id now tok
          (some (record { label = label; ttl_seconds = pos n }))
          rows
        ≡ (failure ttl_too_long, rows)
  unfolding handle_issue_token
  ttl_refused tok label n ne lo hi =
      ground (arith, ne, eq_iff label "", ttl_exact n (omega arith) hi)

  -- A request with a label and a TTL of at most a day is granted while the database answers and the
  -- new id is unused: the reply has a token that Enroll's check accepts, and until it expires, after
  -- exactly that TTL, a claim of the token's hash succeeds.
  pub issued_claimable :
      (hash : Bytes → String) (b : Bytes) (id label : String) (n : ℕ)
      → length b ≡ 25
      → label ≢ ""
      → 1 ≤ n
      → n ≤ 86_400
      → c.up ≡ true
      → exists_where (has_id id) rows ≡ false
      → let o =
          handle_issue_token c org_id now
            (generate hash (some b) id)
            (some (record { label = label; ttl_seconds = pos n }))
            rows in
        (resp : IssueTokenResponse) × (o.0 ≡ success 201 resp)
        × (parse_and_validate resp.token ≡ none)
        × (resp.expires_at ≡ now + n * second)
        × ((c' : Conn)
            → c'.up ≡ true
            → c'.now < now + n * second
            → (a : EnrollmentToken) × ((claim c' (hash resp.token) o.1).0 ≡ ok a))
  unfolding handle_issue_token with_token Tokens.insert
  issued_claimable hash b id label n len ne lo hi up fresh =
      let (tok, made, good, hashed, same) = generate_accepted hash b id len in
      let ttl = ttl_exact n lo (omega arith) in
      let row = Tokens.stored c.now (row_of tok label org_id now (now + n * second)) in
      let done : handle_issue_token c org_id now (generate hash (some b) id)
            (some (record { label = label; ttl_seconds = pos n })) rows
          ≡ (
            success 201 (record {
              id = tok.id;
              token = tok.plain;
              label = label;
              expires_at = now + n * second;
            }),
            rows ++ row ∷ [],
          ) =
        ground (arith, made, same, ttl, ne, eq_iff label "", up, fresh) in
      (
        record { id = tok.id; token = tok.plain; label = label; expires_at = now + n * second },
        ap (λ o. o.0) done,
        good,
        refl,
        λ c' up' before.
            let usable : IsUsable c'.now (hash tok.plain) row = record {
              hash = hashed;
              unused = refl;
              kept = refl;
              fresh = before;
            } in
            let (a, e) =
              claim_complete c' (hash tok.plain) (rows ++ row ∷ []) row up' (In-last rows row)
                usable in
            (a, subst (λ o. (claim c' (hash tok.plain) o.1).0 ≡ ok a) (sym done) e),
      )
