-- ===== src/Http/Posting.antt =====
-- The URLs that are posted to, and the answers that are errors.
use praetor_server.Prelude.{
  ◌≡◌, refl, none, some, [], ◌∷◌, ◌++◌, Bytes, arith, nat_beq_iff, inl, inr, ◌⊎◌, Option-cases,
  Bool-cases, true, nat_beq, All,
}
use praetor_server.Text.{trim_right}
use praetor_server.Http.{base_url, post, Client}

-- all bytes are the separator
abbrev IsSlashes : Bytes → Type 0
IsSlashes = All (λ c. c ≡ b'/')

trim_slashes : (s : Bytes) → IsSlashes s → base_url s ≡ []
unfolding trim_right
trim_slashes [] _ = refl
trim_slashes (c ∷ s) (e, es) = rw (trim_slashes s es, e) refl

-- A base URL may end in slashes: the writer posts to the same URL as without them.
pub base_url-slashes :
    (url slashes : Bytes) → IsSlashes slashes → base_url (url ++ slashes) ≡ base_url url
unfolding trim_right
base_url-slashes [] slashes h = trim_slashes slashes h
base_url-slashes (c ∷ url) slashes h = rw (base_url-slashes url slashes h) refl

-- When Write returns no error for a request, the request was sent and answered with 200 or 204.
pub post_ok :
    {B : Type 0} (client : Client) (url : Bytes) (body : B)
    → (post client url body).0 ≡ none
    → (client.builds url ≡ true)
      × ((client.post url ≡ some 200) ⊎ (client.post url ≡ some 204))
      × ((post client url body).1 ≡ some (url, body))
unfolding post
post_ok client url body h = elim (Bool-cases (client.builds url)) [
  | inr n ↦ absurd (ground (arith, n, h))
  | inl y ↦ elim (Option-cases (client.post url)) [
    | inl n ↦ absurd (ground (arith, y, n, h))
    | inr (status, s) ↦ elim (Bool-cases (nat_beq status 204)) [
      | inl z ↦ (y, inr (ground (arith, s, z, nat_beq_iff status 204)), ground (arith, y))
      | inr z ↦ (y, inl (ground (arith, y, s, z, h, nat_beq_iff status 200)), ground (arith, y))
    ]
  ]
]
