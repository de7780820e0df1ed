-- ===== src/Enrollment/Once.antt =====
-- Sequences of Enroll calls on one token.
use praetor_server.Prelude.{
  ℕ, ◌≤◌, String, ◌≡◌, ◌≢◌, subst, true, none, List, [], ◌∷◌, arith, Option-cases, codes, inr, inl,
}
use praetor_server.Result.{ok, Conn}
use praetor_server.Peer.{Peer}
use praetor_server.Token.{parse_and_validate}
use praetor_server.Store.Tokens.{EnrollmentToken, Tokens, claim}
use praetor_server.Store.Tokens.Lookup.{claim_sound}
use praetor_server.Enrollment.{
  World, EnrollRequest, EnrollResponse, Granted, Tables, done, authenticate, re_enroll, enroll,
}
use praetor_server.Enrollment.Authentic.{claimed-ok}
use praetor_server.Enrollment.Spent.{IsSpent, claim_spends, token_keeps, enroll_keeps}
use praetor_server.Enrollment.Success.{enroll-Success}

-- One call of Enroll: what the world answers to it, its caller, and its request.
abbrev pub Call : Type 0
Call = World × Peer × EnrollRequest

-- A sequence of calls, each with an answer that is left out here.
pub enroll_all : List Call → Tables → Tables
enroll_all [] t = t
enroll_all ((w, peer, req) ∷ calls) t = enroll_all calls (enroll w peer req t).1

-- A caller without a valid certificate needs a token that the database gives to it.
claim_of :
    (w : World) (req : EnrollRequest) (t t1 : Tables) (g : Granted)
    → authenticate w none req t ≡ (done g, t1)
    → (r : EnrollmentToken) × ((claim w.claim_conn (w.sha256_hex req.enrollment_token) t.tokens).0
        ≡ ok r)
      × (t1.tokens ≡ (claim w.claim_conn (w.sha256_hex req.enrollment_token) t.tokens).1)
unfolding authenticate
claim_of w req t t1 g a = elim (Option-cases (parse_and_validate (codes req.enrollment_token))) [
  | inr (x, y) ↦ absurd (ground (arith, y, a))
  | inl n ↦
      let o = claim w.claim_conn (w.sha256_hex req.enrollment_token) t.tokens in
      let (r, c, org) = claimed-ok g o.0 (ground (arith, n, a)) in (r, c, ground (arith, n, a))
]

claim-up :
    (c : Conn) (h : String) (rows : Tokens) (r : EnrollmentToken)
    → (claim c h rows).0 ≡ ok r
    → c.up ≡ true
unfolding claim
claim-up c h rows r e = ground (arith, e)

-- A successful enrollment without a certificate leaves its token spent.
enroll_spends :
    (w : World) (peer : Peer) (req : EnrollRequest) (t t' : Tables) (resp : EnrollResponse)
    (now : ℕ)
    → re_enroll w.clock peer ≡ none
    → enroll w peer req t ≡ (done resp, t')
    → w.claim_conn.now ≤ now
    → IsSpent now (w.sha256_hex req.enrollment_token) t'.tokens
enroll_spends w peer req t t' resp now none_again e le =
    let s = enroll-Success w peer req t t' resp e in
    let h = w.sha256_hex req.enrollment_token in
    let (r, c, tokens) =
      claim_of w req t s.authed s.grant (ground (arith, s.auth_ok, none_again)) in
    let spent : IsSpent now h s.authed.tokens =
      rw tokens
        (claim_spends now h w.claim_conn t.tokens (claim-up w.claim_conn h t.tokens r c) le) in
    subst (IsSpent now h) (ground (arith, s.after)) (
      token_keeps now h w (re_enroll w.clock peer) req (re_enroll w.clock peer) s.grant.token_id
        s.id s.hosts s.authed.tokens spent)

enroll_all_keeps :
    (now : ℕ) (h : String) (calls : List Call) (t : Tables)
    → IsSpent now h t.tokens
    → IsSpent now h (enroll_all calls t).tokens
unfolding enroll_all
enroll_all_keeps now h [] t s = s
enroll_all_keeps now h ((w, peer, req) ∷ calls) t s =
    enroll_all_keeps now h calls (enroll w peer req t).1 (enroll_keeps now h w peer req t s)

-- Once a token has enrolled a host, no caller without a valid certificate enrolls with a token of the
-- same hash again, whatever enrollments are tried in between, while the clock of the database has not
-- been set back before the first claim.
pub enroll_once :
    (w w' : World) (peer peer' : Peer) (req req' : EnrollRequest) (t t' t'' : Tables)
    (resp resp' : EnrollResponse) (calls : List Call)
    → re_enroll w.clock peer ≡ none
    → enroll w peer req t ≡ (done resp, t')
    → re_enroll w'.clock peer' ≡ none
    → w.claim_conn.now ≤ w'.claim_conn.now
    → w'.sha256_hex req'.enrollment_token ≡ w.sha256_hex req.enrollment_token
    → enroll w' peer' req' (enroll_all calls t') ≢ (done resp', t'')
enroll_once w w' peer peer' req req' t t' t'' resp resp' calls first_time e again le same e' =
    let h = w.sha256_hex req.enrollment_token in
    let now = w'.claim_conn.now in
    let t2 = enroll_all calls t' in
    let spent =
      enroll_all_keeps now h calls t' (enroll_spends w peer req t t' resp now first_time e le) in
    let s = enroll-Success w' peer' req' t2 t'' resp' e' in
    let (r, c, tokens) = claim_of w' req' t2 s.authed s.grant (ground (arith, s.auth_ok, again)) in
    let (i, u) = claim_sound w'.claim_conn h t2.tokens r (ground (arith, c, same)) in spent r i u
