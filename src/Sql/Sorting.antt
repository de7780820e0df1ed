-- ===== src/Sql/Sorting.antt =====
-- ORDER BY: a sorted list of the same rows.
use praetor_server.Prelude.{
  ◌≡◌, refl, Bool, true, false, List, [], ◌∷◌, arith, In, inl, inr, either, Bool-cases,
}
use praetor_server.Sql.Defs.{count_where, order_by, insert_by, IsSorted}

module _ {A : Type 0} (before : A → A → Bool)
    (total : (a b : A) → before a b ≡ false → before b a ≡ true) where
  insert_by-IsSorted :
      (r : A) (t : List A) → IsSorted before t → IsSorted before (insert_by before r t)
  unfolding insert_by
  insert_by-IsSorted r [] h = tt
  insert_by-IsSorted r (s ∷ []) h = ground (arith, total r s)
  insert_by-IsSorted r (s ∷ u ∷ t) h = ground (arith, total r s, insert_by-IsSorted r (u ∷ t) h.1)

  pub order_by-IsSorted : (t : List A) → IsSorted before (order_by before t)
  unfolding order_by
  order_by-IsSorted [] = tt
  order_by-IsSorted (r ∷ t) = insert_by-IsSorted r (order_by before t) (order_by-IsSorted t)

module _ {A : Type 0} (before : A → A → Bool) (q : A → Bool) where
  count-insert_by :
      (r : A) (t : List A) → count_where q (insert_by before r t) ≡ count_where q (r ∷ t)
  unfolding insert_by count_where
  count-insert_by r [] = refl
  count-insert_by r (s ∷ t) = ground (arith, count-insert_by r t)

  -- Whatever is counted, ORDER BY keeps its number.
  pub count-order_by : (t : List A) → count_where q (order_by before t) ≡ count_where q t
  unfolding order_by count_where
  count-order_by [] = refl
  count-order_by (r ∷ t) = ground (arith, count-insert_by r (order_by before t), count-order_by t)

module _ {A : Type 0} (before : A → A → Bool) where
  In-insert_by : (a r : A) (t : List A) → In a (r ∷ t) → In a (insert_by before r t)
  unfolding insert_by
  In-insert_by a r [] h = h
  In-insert_by a r (s ∷ t) h = elim (Bool-cases (before r s)) [
    | inl y ↦ rw y h
    | inr n ↦ rw n (
        either h (λ e. inr (In-insert_by a r t (inl e)))
          (λ i. either i (λ e. inl e) (λ j. inr (In-insert_by a r t (inr j)))))
  ]

  insert_by-In : (a r : A) (t : List A) → In a (insert_by before r t) → In a (r ∷ t)
  unfolding insert_by
  insert_by-In a r [] h = h
  insert_by-In a r (s ∷ t) h = elim (Bool-cases (before r s)) [
    | inl y ↦ rw y at h
    | inr n ↦
        either (rw n at h) (λ e. inr (inl e))
          (λ i. either (insert_by-In a r t i) (λ e. inl e) (λ j. inr (inr j)))
  ]

  pub In-order_by : (a : A) (t : List A) → In a t → In a (order_by before t)
  unfolding order_by
  In-order_by a [] h = h
  In-order_by a (r ∷ t) h =
      In-insert_by a r (order_by before t) (either h (λ e. inl e) (λ i. inr (In-order_by a t i)))

  pub order_by-In : (a : A) (t : List A) → In a (order_by before t) → In a t
  unfolding order_by
  order_by-In a [] h = h
  order_by-In a (r ∷ t) h =
      either (insert_by-In a r (order_by before t) h) (λ e. inl e) (λ i. inr (order_by-In a t i))
