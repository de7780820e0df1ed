-- ===== src/Sql/Page.antt =====
-- WHERE, ORDER BY and LIMIT together: what a page of rows is.
use praetor_server.Prelude.{
  ℕ, zero, suc, ◌≤◌, ◌≡◌, refl, Bool, true, false, List, [], ◌∷◌, arith, inl, inr, ◌⊎◌, In, length,
  take, length-take-le, either,
}
use praetor_server.Sql.Defs.{select, order_by, IsSorted}
use praetor_server.Sql.Laws.{In-select, select-In}
use praetor_server.Sql.Sorting.{In-order_by, order_by-In, order_by-IsSorted}

-- A page of at most `limit` rows for which `p` holds, in order; a row that is left out comes after
-- all of a full page.
pub record IsPage {A : Type 0} (before : A → A → Bool) (p : A → Bool) (limit : ℕ) (t out : List A)
    : Type 0 where
  pub short : length out ≤ limit
  pub sorted : IsSorted before out
  pub sound : (r : A) → In r out → In r t × (p r ≡ true)
  pub full :
      (r : A)
      → In r t
      → p r ≡ true
      → In r out ⊎ ((length out ≡ limit) × ((s : A) → In s out → before s r ≡ true))

module _ {A : Type 0} (before : A → A → Bool)
    (total : (a b : A) → before a b ≡ false → before b a ≡ true)
    (trans : (a b c : A) → before a b ≡ true → before b c ≡ true → before a c ≡ true) where
  IsSorted-tail : (a : A) (t : List A) → IsSorted before (a ∷ t) → IsSorted before t
  IsSorted-tail a [] h = tt
  IsSorted-tail a (b ∷ t) h = h.1

  head_before : (a r : A) (t : List A) → IsSorted before (a ∷ t) → In r t → before a r ≡ true
  head_before a r [] h i = absurd i
  head_before a r (b ∷ t) h (inl e) = ground (arith, e, h.0)
  head_before a r (b ∷ t) h (inr i) = trans a b r h.0 (head_before b r t h.1 i)

  take-IsSorted : (n : ℕ) (t : List A) → IsSorted before t → IsSorted before (take n t)
  take-IsSorted zero t h = tt
  take-IsSorted (suc n) [] h = tt
  take-IsSorted (suc zero) (a ∷ t) h = tt
  take-IsSorted (suc (suc n)) (a ∷ []) h = tt
  take-IsSorted (suc (suc n)) (a ∷ b ∷ t) h = (h.0, take-IsSorted (suc n) (b ∷ t) h.1)

  take-In : (n : ℕ) (r : A) (t : List A) → In r (take n t) → In r t
  take-In zero r t i = absurd i
  take-In (suc n) r [] i = absurd i
  take-In (suc n) r (a ∷ t) (inl e) = inl e
  take-In (suc n) r (a ∷ t) (inr i) = inr (take-In n r t i)

  In-take :
      (n : ℕ) (r : A) (t : List A)
      → IsSorted before t
      → In r t
      → In r (take n t)
        ⊎ ((length (take n t) ≡ n) × ((s : A) → In s (take n t) → before s r ≡ true))
  In-take zero r t h i = inr (refl, λ s j. absurd j)
  In-take (suc n) r [] h i = absurd i
  In-take (suc n) r (a ∷ t) h (inl e) = inl (inl e)
  In-take (suc n) r (a ∷ t) h (inr i) =
      either (In-take n r t (IsSorted-tail a t h) i) (λ j. inl (inr j))
        (λ q.
          inr (
            omega (arith, q.0),
            λ s j. either j (λ e. rw e (head_before a r t h i)) (λ k. q.1 s k),
          ))

  pub take-IsPage :
      (p : A → Bool) (limit : ℕ) (t : List A)
      → IsPage before p limit t (take limit (order_by before (select p t)))
  take-IsPage p limit t =
      let rows = order_by before (select p t) in
      record {
        short = length-take-le limit rows;
        sorted = take-IsSorted limit rows (order_by-IsSorted before total (select p t));
        sound = λ r i. select-In p r t (order_by-In before r (select p t) (take-In limit r rows i));
        full = λ r i y.
            In-take limit r rows (order_by-IsSorted before total (select p t))
              (In-order_by before r (select p t) (In-select p r t i y));
      }
