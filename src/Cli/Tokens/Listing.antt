-- ===== src/Cli/Tokens/Listing.antt =====
-- What `token list` prints.
use praetor_server.Prelude.{
  zero, suc, [], All-map, ℕ, ◌≤◌, String, ◌≡◌, ◌≢◌, refl, sym, false, Bool, List, map, arith,
  Bool-cases, string_eq, inl, inr, All, subst, In, ap, ◌<◌, suc, ◌∙◌,
}
use praetor_server.Result.{Conn, ok}
use praetor_server.Sql.{select, order_by, select-In, order_by-In}
use praetor_server.Store.Tokens.{Tokens, list, newer}
use praetor_server.Cli.{finished, ◌∷◌, Option, some, none}
use praetor_server.Cli.Tokens.{
  Line, Reading, up_to, active, used, expired, revoked, line_of, shown, query_tokens,
  EnrollmentToken, true, take,
}

-- The line of a token at a time of the clock, column by column.
pub record IsLine (clock : ℕ) (r : EnrollmentToken) (l : Line) : Type 0 where
  pub id : l.id ≡ r.id
  pub labelled : (label : String) → r.label ≡ some label → l.label ≡ label
  pub unlabelled : r.label ≡ none → l.label ≡ ""
  pub created : l.created_at ≡ r.created_at
  pub expires : l.expires_at ≡ r.expires_at
  pub is_revoked : r.revoked_at ≢ none → l.status ≡ revoked
  pub is_used : r.revoked_at ≡ none → r.used_at ≢ none → l.status ≡ used
  pub is_expired :
      r.revoked_at ≡ none → r.used_at ≡ none → r.expires_at < clock → l.status ≡ expired
  pub is_active : r.revoked_at ≡ none → r.used_at ≡ none → clock ≤ r.expires_at → l.status ≡ active

line_of-IsLine : (clock : ℕ) (r : EnrollmentToken) → IsLine clock r (line_of clock r)
line_of-IsLine clock r = record {
  id = refl;
  labelled = λ label e. rw e refl;
  unlabelled = λ e. rw e refl;
  created = refl;
  expires = refl;
  is_revoked = λ ne. ground (arith, ne);
  is_used = λ e ne. ground (arith, e, ne);
  is_expired = λ e u lt. ground (arith, e, u, lt);
  is_active = λ e u le. ground (arith, e, u, le);
}

-- The lines are those of the tokens, one for each, in order.
abbrev pub AreLines : ℕ → Tokens → List Line → Type 0
AreLines clock [] [] = Unit
AreLines clock [] (l ∷ ls) = ⊥
AreLines clock (r ∷ rs) [] = ⊥
AreLines clock (r ∷ rs) (l ∷ ls) = IsLine clock r l × AreLines clock rs ls

map-AreLines : (clock : ℕ) (rs : Tokens) → AreLines clock rs (map (line_of clock) rs)
map-AreLines clock [] = tt
map-AreLines clock (r ∷ rs) = (line_of-IsLine clock r, map-AreLines clock rs)

take-In : (n : ℕ) (r : EnrollmentToken) (rows : Tokens) → In r (take n rows) → In r rows
take-In zero r rows i = absurd i
take-In (suc n) r [] i = absurd i
take-In (suc n) r (x ∷ rows) (inl e) = inl e
take-In (suc n) r (x ∷ rows) (inr i) = inr (take-In n r rows i)

up_to-In : (o : Option ℕ) (r : EnrollmentToken) (rows : Tokens) → In r (up_to o rows) → In r rows
up_to-In none r rows i = i
up_to-In (some n) r rows i = take-In n r rows i

select-all :
    (p : EnrollmentToken → Bool) (rows : Tokens)
    → ((r : EnrollmentToken) → p r ≡ true)
    → select p rows ≡ rows
unfolding select
select-all p [] h = refl
select-all p (r ∷ rows) h = rw (h r) (ap (λ rest. r ∷ rest) (select-all p rows h))

module _ (c : Conn) (g : Reading) (clock : ℕ) (org : String) where
  -- The rows behind the lines, all of which the query has picked.
  rows_of :
      (with_used with_expired : Bool) (rows : Tokens) (lines : List Line)
      → query_tokens c g clock org with_used with_expired rows ≡ finished lines
      → lines
        ≡ map (line_of clock) (
            select g.scans (
              up_to g.fails_after
                (order_by newer (select (shown c.now org with_used with_expired) rows))))
  unfolding query_tokens
  rows_of with_used with_expired rows lines h = elim (Bool-cases c.up) [
    | inl y ↦ ground (arith, y, h)
    | inr n ↦ absurd (ground (arith, n, h))
  ]

  -- What is true of the line of every row that the query picks is true of every line.
  all_lines :
      (with_used with_expired : Bool) (rows : Tokens) (lines : List Line) (P : Line → Type 0)
      → query_tokens c g clock org with_used with_expired rows ≡ finished lines
      → ((r : EnrollmentToken)
          → In r (order_by newer (select (shown c.now org with_used with_expired) rows))
          → P (line_of clock r))
      → All P lines
  all_lines with_used with_expired rows lines P h each =
      let picked = order_by newer (select (shown c.now org with_used with_expired) rows) in
      subst (All P) (sym (rows_of with_used with_expired rows lines h)) (
        All-map (line_of clock) P (select g.scans (up_to g.fails_after picked)) (λ r i.
          let (j, _) = select-In g.scans r (up_to g.fails_after picked) i in
          each r (up_to-In g.fails_after r picked j)))

  picked_shown :
      (with_used with_expired : Bool) (rows : Tokens) (r : EnrollmentToken)
      → In r (order_by newer (select (shown c.now org with_used with_expired) rows))
      → shown c.now org with_used with_expired r ≡ true
  picked_shown with_used with_expired rows r i =
      let keep = shown c.now org with_used with_expired in
      (select-In keep r rows (order_by-In newer r (select keep rows) i)).1

  -- Whatever its flags are, `token list` shows no token as revoked.
  pub never_revoked :
      (with_used with_expired : Bool) (rows : Tokens) (lines : List Line)
      → query_tokens c g clock org with_used with_expired rows ≡ finished lines
      → All (λ l. l.status ≢ revoked) lines
  never_revoked with_used with_expired rows lines h =
      all_lines with_used with_expired rows lines (λ l. l.status ≢ revoked) h
        (λ r i q. ground (arith, picked_shown with_used with_expired rows r i, q))

  -- Without --include-used, `token list` compares so with the List of the REST API, with the same
  -- choice for expired tokens and without the revoked ones: each line is the line of a token that
  -- List returns; if the connection holds and every row scans, there is one line for each of these
  -- tokens, in their order; and without --include-expired all lines are shown as active, when the
  -- clock of the program is not ahead of the database's.
  pub query_tokens-list :
      (with_expired : Bool) (rows : Tokens) (lines : List Line)
      → query_tokens c g clock org false with_expired rows ≡ finished lines
      → (out : Tokens) × (list c org with_expired false rows ≡ ok out)
        × All (λ l. (r : EnrollmentToken) × In r out × IsLine clock r l) lines
        × (g.fails_after ≡ none
            → ((r : EnrollmentToken) → g.scans r ≡ true)
            → AreLines clock out lines)
        × (with_expired ≡ false → clock ≤ c.now → All (λ l. l.status ≡ active) lines)
  unfolding list query_tokens
  query_tokens-list with_expired rows lines h =
      let picked = order_by newer (select (shown c.now org false with_expired) rows) in
      elim (Bool-cases c.up) [
        | inr n ↦ absurd (ground (arith, n, h))
        | inl y ↦ (
          picked,
          rw y refl,
          all_lines false with_expired rows lines
              (λ l. (r : EnrollmentToken) × In r picked × IsLine clock r l) h
              (λ r i. (r, i, line_of-IsLine clock r)),
          λ whole scan.
              subst (AreLines clock picked)
                (sym (
                  rows_of false with_expired rows lines h
                  ∙ ap (map (line_of clock)) (
                      select-all g.scans (up_to g.fails_after picked) scan
                      ∙ ap (λ o. up_to o picked) whole)))
                (map-AreLines clock picked),
          λ e le.
              all_lines false with_expired rows lines (λ l. l.status ≡ active) h
                (λ r i. ground (arith, picked_shown false with_expired rows r i, e, le)),
        )
      ]
