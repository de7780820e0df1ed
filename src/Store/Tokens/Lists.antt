-- ===== src/Store/Tokens/Lists.antt =====
-- What List and ListActive return.
use mathlib.Core.Path.{fun_ext}
use praetor_server.Prelude.{
  ℕ, ◌<◌, String, ◌≡◌, ◌↔◌, refl, ap, Bool, true, false, none, arith, In, eq_iff,
}
use praetor_server.Result.{ok, Conn, exec}
use praetor_server.Sql.{
  select, order_by, IsSorted, In-select, select-In, In-order_by, order_by-In, order_by-IsSorted,
}
use praetor_server.Store.Tokens.{EnrollmentToken, Tokens, list, list_active, listed, active, newer}

-- What a listing promises of a token, with the two flags of the query.
pub record IsListed (now : ℕ) (org_id : String) (expired revoked : Bool) (r : EnrollmentToken)
    : Type 0 where
  pub org : r.org_id ≡ org_id
  pub unused : r.used_at ≡ none
  pub fresh : expired ≡ false → now < r.expires_at
  pub kept : revoked ≡ false → r.revoked_at ≡ none

listed-IsListed :
    (now : ℕ) (org : String) (x v : Bool) (r : EnrollmentToken)
    → listed now org x v r ≡ true
    → IsListed now org x v r
listed-IsListed now org x v r y = ground (arith, eq_iff r.org_id org)

IsListed-listed :
    (now : ℕ) (org : String) (x v : Bool) (r : EnrollmentToken)
    → IsListed now org x v r
    → listed now org x v r ≡ true
IsListed-listed now org true true r y = ground (arith, eq_iff r.org_id org, y.org, y.unused)
IsListed-listed now org true false r y =
    ground (arith, eq_iff r.org_id org, y.org, y.unused, y.kept refl)
IsListed-listed now org false true r y =
    ground (arith, eq_iff r.org_id org, y.org, y.unused, y.fresh refl)
IsListed-listed now org false false r y =
    ground (arith, eq_iff r.org_id org, y.org, y.unused, y.kept refl, y.fresh refl)

newer_total : (a b : EnrollmentToken) → newer a b ≡ false → newer b a ≡ true
newer_total a b h = ground arith

-- While the database answers, List returns the tokens newest first, and exactly those of the
-- organisation that were never used and that the two flags do not exclude as expired or revoked.
pub list_exact :
    (c : Conn) (org : String) (x v : Bool) (rows : Tokens)
    → c.up ≡ true
    → (out : Tokens) × (list c org x v rows ≡ ok out)
      × IsSorted newer out
      × ((r : EnrollmentToken) → In r out ↔ (In r rows × IsListed c.now org x v r))
unfolding list
list_exact c org x v rows up = (
  order_by newer (select keep rows),
  rw up,
  order_by-IsSorted newer newer_total (select keep rows),
  λ r. (
    (λ i.
        let (j, y) = select-In keep r rows (order_by-In newer r (select keep rows) i) in
        (j, listed-IsListed c.now org x v r y)),
    (λ p.
        In-order_by newer r (select keep rows)
          (In-select keep r rows p.0 (IsListed-listed c.now org x v r p.1))),
  ),
)
  where
    keep : EnrollmentToken → Bool
    keep = listed c.now org x v

active-listed :
    (now : ℕ) (org : String) (r : EnrollmentToken) → active now org r ≡ listed now org false false r
active-listed now org r = ground arith

-- ListActive is List with neither expired nor revoked tokens.
pub list_active-list :
    (c : Conn) (org : String) (rows : Tokens) → list_active c org rows ≡ list c org false false rows
unfolding list list_active
list_active-list c org rows =
    ap (λ keep. (exec c rows (ok (order_by newer (select keep rows)), rows)).0)
      (fun_ext (active-listed c.now org))
