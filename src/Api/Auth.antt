-- ===== src/Api/Auth.antt =====
-- internal/api/middleware.go: the Authorization header.
use praetor_server.Prelude.{
  Bool, true, false, Option, none, some, [], ◌∷◌, ◌++◌, Bytes, codes, length, drop, if◌then◌else◌,
  ◌≡◌, ◌≢◌, refl, sym, ap, ◌∙◌, subst, inl, inr, arith, nat_beq, nat_beq_iff, Bool-cases,
}
use praetor_server.Token.{has_prefix}
use praetor_server.Api.{Reply, failure, unauthorized}

-- strings.CutPrefix(s, p), with "" for `false`
unfoldable pub cut_prefix : Bytes → Bytes → Option Bytes
cut_prefix s p = if has_prefix s p then some (drop (length p) s) else none

-- the comparison of two byte strings
unfoldable pub bytes_eq : Bytes → Bytes → Bool
bytes_eq [] [] = true
bytes_eq [] (b ∷ t) = false
bytes_eq (a ∷ s) [] = false
bytes_eq (a ∷ s) (b ∷ t) = let rest = bytes_eq s t in if nat_beq a b then rest else false

abbrev checked : {B : Type 0} → Bytes → Reply B → Option Bytes → Reply B
checked api_key next none = failure unauthorized
checked api_key next (some token) = if bytes_eq token api_key then next else failure unauthorized

-- bearerAuth: `next` is the reply of the handler behind it, and `auth` the header, "" without one.
unfoldable pub bearer_auth : {B : Type 0} → Bytes → Bytes → Reply B → Reply B
bearer_auth api_key auth next = checked api_key next (cut_prefix auth (codes "Bearer "))

bytes_eq-eq : (s t : Bytes) → bytes_eq s t ≡ true → s ≡ t
unfolding bytes_eq
bytes_eq-eq [] [] h = refl
bytes_eq-eq [] (b ∷ t) h = absurd (ground arith)
bytes_eq-eq (a ∷ s) [] h = absurd (ground arith)
bytes_eq-eq (a ∷ s) (b ∷ t) h = ground (arith, h, bytes_eq-eq s t, nat_beq_iff a b)

bytes_eq-same : (s : Bytes) → bytes_eq s s ≡ true
unfolding bytes_eq
bytes_eq-same [] = refl
bytes_eq-same (a ∷ s) = ground (arith, bytes_eq-same s, nat_beq_iff a a)

has_prefix-split : (s p : Bytes) → has_prefix s p ≡ true → s ≡ p ++ drop (length p) s
unfolding has_prefix
has_prefix-split s [] h = refl
has_prefix-split [] (a ∷ p) h = absurd (ground arith)
has_prefix-split (c ∷ s) (a ∷ p) h = ground (arith, h, has_prefix-split s p, nat_beq_iff c a)

has_prefix-append : (p s : Bytes) → (has_prefix (p ++ s) p ≡ true) × (drop (length p) (p ++ s) ≡ s)
unfolding has_prefix
has_prefix-append [] s = (refl, refl)
has_prefix-append (a ∷ p) s =
    let (x, y) = has_prefix-append p s in (ground (arith, x, nat_beq_iff a a), y)

abbrev scheme : Bytes
scheme = codes "Bearer "

module _ {B : Type 0} (api_key : Bytes) (next : Reply B) where
  accepted : bearer_auth api_key (scheme ++ api_key) next ≡ next
  unfolding bearer_auth cut_prefix
  accepted = let (x, y) = has_prefix-append scheme api_key in rw (x, y, bytes_eq-same api_key) refl

  rejected :
      (auth : Bytes)
      → auth ≢ scheme ++ api_key
      → bearer_auth api_key auth next ≡ failure unauthorized
  unfolding bearer_auth cut_prefix
  rejected auth ne = elim (Bool-cases (has_prefix auth scheme)) [
    | inr n ↦ rw n refl
    | inl y ↦ elim (Bool-cases (bytes_eq (drop 7 auth) api_key)) [
      | inl z ↦ absurd (
          ne (
            has_prefix-split auth scheme y
            ∙ ap (λ k. scheme ++ k) (bytes_eq-eq (drop 7 auth) api_key z)))
      | inr n ↦ rw (y, n) refl
    ]
  ]

-- The request reaches the handler exactly when its header is "Bearer " followed by the API key; any
-- other header, and none, is answered as unauthorized.
pub bearer_exact :
    {B : Type 0} (api_key auth : Bytes) (next : Reply B)
    → (auth ≡ codes "Bearer " ++ api_key → bearer_auth api_key auth next ≡ next)
      × (auth ≢ codes "Bearer " ++ api_key → bearer_auth api_key auth next ≡ failure unauthorized)
bearer_exact api_key auth next = (
  λ e. subst (λ a. bearer_auth api_key a next ≡ next) (sym e) (accepted api_key next),
  rejected api_key next auth,
)
