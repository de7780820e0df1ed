-- ===== src/Cli/Tokens/Issuing.antt =====
-- What `token issue` prints, and what it stores.
use praetor_server.Dict.{lookup}
use praetor_server.Cli.Flags.{text_of, duration_of, word, cut}
use praetor_server.Dict
use praetor_server.Cli.Tokens.{issue_flags}
use praetor_server.Cli.Flags.{text, duration, Values, parse, parsed, word, cut}
use praetor_server.Prelude.{Option, ℤ, pos}
use praetor_server.Prelude.{
  In-last, ◌+◌, ◌<◌, ℤ, pos, String, ◌≡◌, ◌≢◌, refl, sym, ap, subst, true, false, none, some, [],
  ◌∷◌, ◌++◌, arith, Bytes, length, eq_iff, string_eq,
}
use praetor_server.Result.{ok, Conn}
use praetor_server.Sql.{exists_where}
use praetor_server.Token.{parse_and_validate}
use praetor_server.Token.Generated.{generate_accepted}
use praetor_server.Store.Tokens.{Tokens, EnrollmentToken, has_id, insert, claim, stored}
use praetor_server.Store.Tokens.Lookup.{IsUsable, claim_complete}
use praetor_server.Api.Tokens.{default_ttl}
use praetor_server.Cli.{finished, opened}
use praetor_server.Cli.Flags.{parse, parsed, default_config_path, text_of, duration_of, word, cut}
use praetor_server.Cli.Tokens.{World, Issued, issued, row_of, run_token_issue}

abbrev labelled : String → Values
labelled label =
    ("config", text default_config_path)
    ∷ ("label", text label)
    ∷ ("ttl", duration (pos default_ttl))
    ∷ ("org", text "default")
    ∷ []

parse_label :
    (d : String → Option ℤ) (label : String)
    → parse d ("--label" ∷ label ∷ []) issue_flags ≡ parsed (labelled label) []
unfolding parse word cut lookup Dict.insert
parse_label d label = refl

-- `token issue --label <label>` with a label that is not empty and a new id that is unused, on a
-- configuration and a database that work: it prints a token that ParseAndValidate accepts, and for a
-- quarter of an hour from then a claim of the hash of this token succeeds while the database answers.
pub issue_claimable :
    (w : World) (label : String) (b : Bytes) (rows : Tokens)
    → label ≢ ""
    → opened w.env default_config_path ≡ finished tt
    → w.random ≡ some b
    → length b ≡ 25
    → w.conn.up ≡ true
    → exists_where (has_id w.ulid) rows ≡ false
    → let o = run_token_issue w ("--label" ∷ label ∷ []) rows in
      (i : Issued) × (o.0 ≡ finished (issued i))
      × (parse_and_validate i.plain ≡ none)
      × ((c : Conn)
          → c.up ≡ true
          → c.now < w.clock + default_ttl
          → (a : EnrollmentToken) × ((claim c (w.hash i.plain) o.1).0 ≡ ok a))
unfolding run_token_issue insert text_of duration_of lookup
issue_claimable w label b rows ne works random len up fresh =
    let (tok, made, good, hashed, same) = generate_accepted w.hash b w.ulid len in
    let row = stored w.conn.now (row_of tok label "default" w.clock (w.clock + default_ttl)) in
    let out : Issued = record {
      plain = tok.plain;
      label = label;
      expires_at = w.clock + default_ttl;
      org = "default";
    } in
    let done : run_token_issue w ("--label" ∷ label ∷ []) rows
        ≡ (finished (issued out), rows ++ row ∷ []) =
      ground (
        arith,
        parse_label w.env.parse_duration label,
        ne,
        eq_iff label "",
        works,
        random,
        made,
        same,
        up,
        fresh,
      ) in
    (
      out,
      ap (λ o. o.0) done,
      good,
      λ c up' before.
          let usable : IsUsable c.now (w.hash tok.plain) row = record {
            hash = hashed;
            unused = refl;
            kept = refl;
            fresh = before;
          } in
          let (a, e) =
            claim_complete c (w.hash tok.plain) (rows ++ row ∷ []) row up' (In-last rows row)
              usable in
          (a, subst (λ o. (claim c (w.hash tok.plain) o.1).0 ≡ ok a) (sym done) e),
    )
