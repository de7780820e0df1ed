-- ===== src/Enrollment/Spent.antt =====
-- What each step of Enroll does to the tokens that could be claimed.
use praetor_server.Prelude.{
  ℕ, ◌≤◌, String, ◌≡◌, subst, Bool, true, false, Option, none, some, if◌then◌else◌, arith,
  Bool-cases, In, codes, is_none, ◌==◌, string_eq, inl, inr,
}
use praetor_server.Result.{Result, ok, err, Conn}
use praetor_server.Sql.{update_where, exists_where, In-update}
use praetor_server.Peer.{Peer}
use praetor_server.Token.{parse_and_validate}
use praetor_server.Store.Tokens.{
  EnrollmentToken, Tokens, claim, link_host, claimable, use_at, has_id, link_to,
}
use praetor_server.Store.Tokens.Lookup.{IsUsable, IsUsable-claimable}
use praetor_server.Store.Hosts.{Hosts, upsert}
use praetor_server.Store.Identities
use praetor_server.Store.Identities.{AgentIdentity, Identities}
use praetor_server.Enrollment.{
  known, identity_row, host_row, chosen_id, World, EnrollRequest, HostInfo, Granted, Tables,
  Outcome, done, failed, authenticate, re_enroll, enroll, shaped, granted, certified, upserted,
  finished, link_token, shape,
}

-- No row with the hash is good for an enrollment at this time.
abbrev pub IsSpent : ℕ → String → Tokens → Type 0
IsSpent now h rows = (r : EnrollmentToken) → In r rows → IsUsable now h r → ⊥

-- A usable row is still usable at an earlier time.
earlier :
    (now now' : ℕ) (h : String) (r : EnrollmentToken)
    → now ≤ now'
    → IsUsable now' h r
    → IsUsable now h r
earlier now now' h r le u = record {
  hash = u.hash;
  unused = u.unused;
  kept = u.kept;
  fresh = omega (arith, u.fresh);
}

module _ (now : ℕ) (h : String) where
  update_keeps :
      (p : EnrollmentToken → Bool) (f : EnrollmentToken → EnrollmentToken) (rows : Tokens)
      → ((r : EnrollmentToken) → IsUsable now h (if p r then f r else r) → IsUsable now h r)
      → IsSpent now h rows
      → IsSpent now h (update_where p f rows)
  update_keeps p f rows back s r i u =
      let (b, j, e) = In-update p f r rows i in s b j (back b (subst (IsUsable now h) e u))

  claimed_row :
      (now' : ℕ) (k : String) (r : EnrollmentToken)
      → IsUsable now h (if claimable now' k r then use_at now' r else r)
      → IsUsable now h r × (claimable now' k r ≡ false)
  claimed_row now' k r u = elim (Bool-cases (claimable now' k r)) [
    | inl y ↦ absurd (ground (arith, y, u.unused))
    | inr n ↦ (subst (IsUsable now h) (ground (arith, n)) u, n)
  ]

  claim_keeps :
      (c : Conn) (k : String) (rows : Tokens)
      → IsSpent now h rows
      → IsSpent now h (claim c k rows).1
  unfolding claim
  claim_keeps c k rows s = elim (Bool-cases c.up) [
    | inr n ↦ rw n s
    | inl y ↦ rw y (
        update_keeps (claimable c.now k) (use_at c.now) rows (λ r u. (claimed_row c.now k r u).0) s)
  ]

  linked_row :
      (id host_id : String) (r : EnrollmentToken)
      → IsUsable now h (if has_id id r then link_to host_id r else r)
      → IsUsable now h r
  linked_row id host_id r u = elim (Bool-cases (has_id id r)) [
    | inl y ↦ record {
      hash = ground (arith, y, u.hash);
      unused = ground (arith, y, u.unused);
      kept = ground (arith, y, u.kept);
      fresh = ground (arith, y, u.fresh);
    }
    | inr n ↦ subst (IsUsable now h) (ground (arith, n)) u
  ]

  link_keeps :
      (c : Conn) (hosts : String → Bool) (id host_id : String) (rows : Tokens)
      → IsSpent now h rows
      → IsSpent now h (link_host c hosts id host_id rows).1
  unfolding link_host
  link_keeps c hosts id host_id rows s =
      let updated = update_keeps (has_id id) (link_to host_id) rows (linked_row id host_id) s in
      elim (Bool-cases c.up) [
        | inr n ↦ rw n s
        | inl y ↦ elim (Bool-cases (exists_where (has_id id) rows)) [
          | inr n ↦ rw (y, n) s
          | inl e ↦ elim (Bool-cases (hosts host_id)) [
            | inl k ↦ rw (y, e, k) updated
            | inr k ↦ rw (y, e, k) s
          ]
        ]
      ]

  pub claim_spends :
      (c : Conn) (rows : Tokens) → c.up ≡ true → c.now ≤ now → IsSpent now h (claim c h rows).1
  unfolding claim
  claim_spends c rows up le = rw up (λ r i u.
      let (b, j, e) = In-update (claimable c.now h) (use_at c.now) r rows i in
      let (v, n) = claimed_row c.now h b (subst (IsUsable now h) e u) in
      ground (arith, n, IsUsable-claimable c.now h b (earlier c.now now h b le v)))

  -- Whatever Enroll answers, it makes no token usable.
  module _ (w : World) (again : Option String) (req : EnrollRequest) where
    finished_keeps :
        (id cert : String) (t : Tables) (o : Result AgentIdentity × Identities)
        → IsSpent now h t.tokens
        → IsSpent now h (finished w id cert t o).1.tokens
    finished_keeps id cert t (ok i, is) s = s
    finished_keeps id cert t (err e, is) s = s

    pub token_keeps :
        (again : Option String) (token_id id : String) (hosts : Hosts) (tokens : Tokens)
        → IsSpent now h tokens
        → IsSpent now h (link_token w again token_id id hosts tokens)
    unfolding link_token
    token_keeps (some x) token_id id hosts tokens s = s
    token_keeps none token_id id hosts tokens s = elim (Bool-cases (token_id == "")) [
      | inl y ↦ rw y s
      | inr n ↦ rw n (link_keeps w.link_conn (known hosts) token_id id tokens s)
    ]

    upserted_keeps :
        (g : Granted) (id cert : String) (t : Tables) (o : Result (Unit {0}) × Hosts)
        → IsSpent now h t.tokens
        → IsSpent now h (upserted w again g id cert t o).1.tokens
    upserted_keeps g id cert t (err e, hosts) s = s
    upserted_keeps g id cert t (ok u, hosts) s =
        let t1 = record t {
          hosts = hosts;
          tokens = link_token w again g.token_id id hosts t.tokens;
        } in
        finished_keeps id cert t1
          (Identities.insert w.insert_conn (known hosts) (identity_row w id cert) t.identities)
          (token_keeps again g.token_id id hosts t.tokens s)

    certified_keeps :
        (hi : HostInfo) (g : Granted) (id : String) (o : Option String) (t : Tables)
        → IsSpent now h t.tokens
        → IsSpent now h (certified w again req hi g id o t).1.tokens
    unfolding certified
    certified_keeps hi g id none t s = s
    certified_keeps hi g id (some cert) t s =
        upserted_keeps g id cert t (upsert w.upsert_conn (host_row w req hi id g.org_id) t.hosts) s

    granted_keeps :
        (hi : HostInfo) (o : Outcome Granted × Tables)
        → IsSpent now h o.1.tokens
        → IsSpent now h (granted w again req hi o).1.tokens
    unfolding granted
    granted_keeps hi (failed e, t) s = s
    granted_keeps hi (done g, t) s =
        let id = chosen_id w again hi g t.hosts in
        certified_keeps hi g id (w.issue_client req.csr_pem id) t s

    authenticate_keeps :
        (again : Option String) (t : Tables)
        → IsSpent now h t.tokens
        → IsSpent now h (authenticate w again req t).1.tokens
    unfolding authenticate
    authenticate_keeps (some x) t s = s
    authenticate_keeps none t s =
        elim (Bool-cases (is_none (parse_and_validate (codes req.enrollment_token)))) [
          | inl y ↦ rw y (claim_keeps w.claim_conn (w.sha256_hex req.enrollment_token) t.tokens s)
          | inr n ↦ rw n s
        ]

    shaped_keeps :
        (o : Outcome HostInfo) (t : Tables)
        → IsSpent now h t.tokens
        → IsSpent now h (shaped w again req o t).1.tokens
    unfolding shaped
    shaped_keeps (failed e) t s = s
    shaped_keeps (done hi) t s =
        granted_keeps hi (authenticate w again req t) (authenticate_keeps again t s)

  pub enroll_keeps :
      (w : World) (peer : Peer) (req : EnrollRequest) (t : Tables)
      → IsSpent now h t.tokens
      → IsSpent now h (enroll w peer req t).1.tokens
  unfolding enroll
  enroll_keeps w peer req t s =
      let again = re_enroll w.clock peer in shaped_keeps w again req (shape again req) t s
