-- ===== src/Token/Split.antt =====
-- Laws of Split and HasPrefix.
use praetor_server.Prelude.{
  ℕ, ◌≡◌, ◌≢◌, refl, true, false, List, [], ◌∷◌, ◌++◌, Bytes, All, arith, length, drop,
  if◌then◌else◌, ◌==◌, nat_eq, ◌∙◌, ap,
}
use praetor_server.Token.{split, push, has_prefix}

abbrev pub Lacks : ℕ → Bytes → Type 0
Lacks sep = All (λ c. (c == sep) ≡ false)

-- A part without the separator is split off whole.
pub split-append :
    (sep : ℕ) (g rest : Bytes) → Lacks sep g → split sep (g ++ sep ∷ rest) ≡ g ∷ split sep rest
unfolding split
split-append sep [] rest h = ground arith
split-append sep (c ∷ g) rest h = ground (arith, split-append sep g rest h.1, h.0)

pub split_last : (sep : ℕ) (g : Bytes) → Lacks sep g → split sep g ≡ g ∷ []
unfolding split
split_last sep [] h = refl
split_last sep (c ∷ g) h = ground (arith, split_last sep g h.1, h.0)

-- strings.Join
unfoldable pub join : ℕ → List Bytes → Bytes
join sep [] = []
join sep (p ∷ []) = p
join sep (p ∷ q ∷ ps) = p ++ sep ∷ join sep (q ∷ ps)

push-ne-nil : (c : ℕ) (l : List Bytes) → push c l ≢ []
push-ne-nil c [] = λ e. cc
push-ne-nil c (p ∷ ps) = λ e. cc

pub split-ne-nil : (sep : ℕ) (s : Bytes) → split sep s ≢ []
unfolding split
split-ne-nil sep [] = λ e. cc
split-ne-nil sep (c ∷ s) = ground (arith, push-ne-nil c (split sep s))

join-push :
    (sep c : ℕ) (l : List Bytes)
    → l ≢ []
    → join sep (if c == sep then [] ∷ l else push c l) ≡ c ∷ join sep l
unfolding join
join-push sep c [] h = absurd (h refl)
join-push sep c (p ∷ []) h = ground arith
join-push sep c (p ∷ q ∷ ps) h = ground arith

-- Joining what Split returns gives the text back.
pub join-split : (sep : ℕ) (s : Bytes) → join sep (split sep s) ≡ s
unfolding split join
join-split sep [] = refl
join-split sep (c ∷ s) =
    join-push sep c (split sep s) (split-ne-nil sep s) ∙ ap (λ t. c ∷ t) (join-split sep s)

pub has_prefix-append : (s p : Bytes) → has_prefix s p ≡ true → s ≡ p ++ drop (length p) s
unfolding has_prefix
has_prefix-append s [] h = refl
has_prefix-append [] (a ∷ p) h = cc
has_prefix-append (c ∷ s) (a ∷ p) h = ground (arith, has_prefix-append s p)

pub append-has_prefix : (p s : Bytes) → has_prefix (p ++ s) p ≡ true
unfolding has_prefix
append-has_prefix [] s = refl
append-has_prefix (a ∷ p) s = ground (arith, append-has_prefix p s)
