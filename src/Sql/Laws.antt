-- ===== src/Sql/Laws.antt =====
-- Laws of the SQL clauses, for every table.
use praetor_server.Prelude.{
  ◌+◌, ◌≤◌, ◌≡◌, refl, Bool, true, false, none, some, List, [], ◌∷◌, ◌++◌, if◌then◌else◌, arith,
  inl, inr, In, Bool-cases, either,
}
use praetor_server.Sql.Defs.{select, first, update_where, exists_where, count_where}

module _ {A : Type 0} (p : A → Bool) where
  -- The rows that WHERE keeps are those of the table that pass its test.
  pub In-select : (a : A) (t : List A) → In a t → p a ≡ true → In a (select p t)
  unfolding select
  In-select a [] h e = h
  In-select a (r ∷ t) (inl h) e = rw (← h, e) (inl refl)
  In-select a (r ∷ t) (inr h) e = elim (Bool-cases (p r)) [
    | inl y ↦ rw y (inr (In-select a t h e))
    | inr n ↦ rw n (In-select a t h e)
  ]

  pub select-In : (a : A) (t : List A) → In a (select p t) → In a t × (p a ≡ true)
  unfolding select
  select-In a [] h = absurd h
  select-In a (r ∷ t) h = elim (Bool-cases (p r)) [
    | inl y ↦
        either (rw y at h) (λ e. (inl e, rw e y))
          (λ i. (inr (select-In a t i).0, (select-In a t i).1))
    | inr n ↦ (inr (select-In a t (rw n at h)).0, (select-In a t (rw n at h)).1)
  ]

  -- QueryRow finds no row exactly when no row passes the test.
  pub first-select-none : (a : A) (t : List A) → first (select p t) ≡ none → In a t → p a ≡ false
  unfolding select
  first-select-none a [] h i = absurd i
  first-select-none a (r ∷ t) h (inl e) = elim (Bool-cases (p r)) [
    | inl y ↦ cc (rw y at h)
    | inr n ↦ rw e n
  ]
  first-select-none a (r ∷ t) h (inr i) = elim (Bool-cases (p r)) [
    | inl y ↦ cc (rw y at h)
    | inr n ↦ first-select-none a t (rw n at h) i
  ]

first-In : {A : Type 0} (a : A) (t : List A) → first t ≡ some a → In a t
first-In a [] h = cc
first-In a (r ∷ t) h = inl (ground arith)

module _ {A : Type 0} (p : A → Bool) where
  -- The row that QueryRow returns stands in the table and passes the test.
  pub first-select-In : (a : A) (t : List A) → first (select p t) ≡ some a → In a t × (p a ≡ true)
  first-select-In a t h = select-In p a t (first-In a (select p t) h)

  pub exists-false : (a : A) (t : List A) → exists_where p t ≡ false → In a t → p a ≡ false
  unfolding exists_where
  exists-false a [] h i = absurd i
  exists-false a (r ∷ t) h (inl e) = elim (Bool-cases (p r)) [
    | inl y ↦ cc (rw y at h)
    | inr n ↦ rw e n
  ]
  exists-false a (r ∷ t) h (inr i) = elim (Bool-cases (p r)) [
    | inl y ↦ cc (rw y at h)
    | inr n ↦ exists-false a t (rw n at h) i
  ]

  pub exists-true : (t : List A) → exists_where p t ≡ true → (a : A) × In a t × (p a ≡ true)
  unfolding exists_where
  exists-true [] h = cc
  exists-true (r ∷ t) h = elim (Bool-cases (p r)) [
    | inl y ↦ (r, inl refl, y)
    | inr n ↦ let (a, i, e) = exists-true t (rw n at h) in (a, inr i, e)
  ]

  pub In-exists : (a : A) (t : List A) → In a t → p a ≡ true → exists_where p t ≡ true
  unfolding exists_where
  In-exists a [] h e = absurd h
  In-exists a (r ∷ t) (inl h) e = rw (← h, e)
  In-exists a (r ∷ t) (inr h) e = ground (arith, In-exists a t h e)

  pub count-pos : (a : A) (t : List A) → In a t → p a ≡ true → 1 ≤ count_where p t
  unfolding count_where
  count-pos a [] i y = absurd i
  count-pos a (r ∷ t) (inl e) y = rw (← e, y) (omega arith)
  count-pos a (r ∷ t) (inr i) y = ground (arith, count-pos a t i y)

  pub count-append : (t u : List A) → count_where p (t ++ u) ≡ count_where p t + count_where p u
  unfolding count_where
  count-append [] u = omega arith
  count-append (r ∷ t) u = ground (arith, count-append t u)

  pub exists-append :
      (t : List A) (r : A) → exists_where p (t ++ r ∷ []) ≡ (if exists_where p t then true else p r)
  unfolding exists_where
  exists-append [] r = ground arith
  exists-append (s ∷ t) r = ground (arith, exists-append t r)

-- What passes one test passes a weaker one.
module _ {A : Type 0} (p q : A → Bool) (weaker : (r : A) → p r ≡ true → q r ≡ true) where
  pub exists_mono : (t : List A) → exists_where p t ≡ true → exists_where q t ≡ true
  unfolding exists_where
  exists_mono [] h = h
  exists_mono (r ∷ t) h = ground (arith, weaker r, exists_mono t)

-- A row of an updated table is an updated row or an untouched one.
module _ {A : Type 0} (p : A → Bool) (f : A → A) where
  pub In-update :
      (a : A) (t : List A)
      → In a (update_where p f t)
      → (b : A) × In b t × (a ≡ (if p b then f b else b))
  unfolding update_where
  In-update a [] h = absurd h
  In-update a (r ∷ t) (inl e) = (r, inl refl, e)
  In-update a (r ∷ t) (inr i) = let (b, j, e) = In-update a t i in (b, inr j, e)

  pub update-In : (b : A) (t : List A) → In b t → In (if p b then f b else b) (update_where p f t)
  unfolding update_where
  update-In b [] h = h
  update-In b (r ∷ t) (inl e) = rw e (inl refl)
  update-In b (r ∷ t) (inr i) = inr (update-In b t i)

  -- A test that no update can turn on counts no more rows after it.
  pub count-update-le :
      (q : A → Bool) (t : List A)
      → ((r : A) → p r ≡ true → q (f r) ≡ true → q r ≡ true)
      → count_where q (update_where p f t) ≤ count_where q t
  unfolding count_where update_where
  count-update-le q [] h = omega arith
  count-update-le q (r ∷ t) h = ground (arith, count-update-le q t h, h r)

  pub count-update-zero :
      (q : A → Bool) (t : List A)
      → ((r : A) → q (if p r then f r else r) ≡ false)
      → count_where q (update_where p f t) ≡ 0
  unfolding count_where update_where
  count-update-zero q [] h = refl
  count-update-zero q (r ∷ t) h = rw (h r) (count-update-zero q t h)

  -- It counts fewer if the update turns it off for the rows that it selects, and selects one.
  pub count-update-lt :
      (q : A → Bool) (a : A) (t : List A)
      → ((r : A) → p r ≡ true → (q r ≡ true) × (q (f r) ≡ false))
      → first (select p t) ≡ some a
      → count_where q (update_where p f t) + 1 ≤ count_where q t
  unfolding count_where update_where select
  count-update-lt q a [] h e = cc
  count-update-lt q a (r ∷ t) h e = ground (
    arith,
    count-update-lt q a t h,
    h r,
    count-update-le q t (λ (s : A) (y : p s ≡ true) (z : q (f s) ≡ true). (h s y).0),
  )

module _ {A : Type 0} (q p : A → Bool) (f : A → A) where
  -- An update that leaves a test alone leaves its answer alone.
  pub exists-update :
      (t : List A)
      → ((r : A) → q (f r) ≡ q r)
      → exists_where q (update_where p f t) ≡ exists_where q t
  unfolding exists_where update_where
  exists-update [] h = refl
  exists-update (r ∷ t) h = ground (arith, exists-update t h, h r)
