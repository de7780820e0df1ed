-- ===== src/Sql/Lookup.antt =====
-- What QueryRow finds after an UPDATE or an INSERT, and counts that bound one another.
use praetor_server.Prelude.{
  ◌≤◌, ◌≡◌, refl, Bool, true, false, Option, none, some, List, [], ◌∷◌, ◌++◌, if◌then◌else◌, arith,
  inl, inr, In, is_none, String, ◌==◌, eq_iff, string_eq,
}
use mathlib.Core.Option
use praetor_server.Sql.Defs.{select, first, update_where, exists_where, count_where}

abbrev pub or_row {ℓ} : {A : Type ℓ} → Option A → Option A → Option A
or_row none o = o
or_row (some r) o = some r

-- A lookup by a text key after an UPDATE of the rows with one key, which keeps the keys.
module _ {A : Type 0} (key : A → String) (f : A → A) (same : (r : A) → key (f r) ≡ key r) where
  pub first-update_key :
      (k j : String) (t : List A)
      → first (select (λ r. key r == j) (update_where (λ r. key r == k) f t)) ≡ (
          if k == j
          then Option.map f (first (select (λ r. key r == j) t))
          else first (select (λ r. key r == j) t))
  unfolding select update_where
  first-update_key k j [] = ground arith
  first-update_key k j (r ∷ t) = ground (
    arith,
    first-update_key k j t,
    same r,
    eq_iff (key r) k,
    eq_iff (key r) j,
    eq_iff k j,
    eq_iff (key (f r)) j,
  )

module _ {A : Type 0} (q p : A → Bool) (f : A → A) where
  -- Row by row, what counts after the UPDATE is counted by another test before it.
  pub count-update_mono :
      (s : A → Bool) (t : List A)
      → ((r : A) → In r t → q (if p r then f r else r) ≡ true → s r ≡ true)
      → count_where q (update_where p f t) ≤ count_where s t
  unfolding count_where update_where
  count-update_mono s [] h = omega arith
  count-update_mono s (r ∷ t) h =
      ground (arith, h r (inl refl), count-update_mono s t (λ (x : A) (i : In x t). h x (inr i)))

module _ {A : Type 0} (p : A → Bool) where
  pub first-append :
      (t u : List A) → first (select p (t ++ u)) ≡ or_row (first (select p t)) (first (select p u))
  unfolding select
  first-append [] u = refl
  first-append (r ∷ t) u = ground (arith, first-append t u)

  -- A row exists exactly when QueryRow finds one.
  pub exists-first :
      (t : List A) → exists_where p t ≡ (if is_none (first (select p t)) then false else true)
  unfolding exists_where select
  exists-first [] = refl
  exists-first (r ∷ t) = ground (arith, exists-first t)

  pub exists-count : (t : List A) → exists_where p t ≡ false → count_where p t ≡ 0
  unfolding exists_where count_where
  exists-count [] h = refl
  exists-count (r ∷ t) h = ground (arith, exists-count t)

  pub count-none : (t : List A) → ((r : A) → In r t → p r ≡ false) → count_where p t ≡ 0
  unfolding count_where
  count-none [] h = refl
  count-none (r ∷ t) h = rw (h r (inl refl)) (count-none t (λ x i. h x (inr i)))

module _ {A : Type 0} (p : A → Bool) (f : A → A) where
  -- An UPDATE that no row matches changes nothing.
  pub update-absent : (t : List A) → exists_where p t ≡ false → update_where p f t ≡ t
  unfolding exists_where update_where
  update-absent [] h = refl
  update-absent (r ∷ t) h = ground (arith, h, update-absent t)

  -- When what is written does not match, no row matches afterwards.
  pub exists-update_none :
      ((r : A) → p (f r) ≡ false) → (t : List A) → exists_where p (update_where p f t) ≡ false
  unfolding exists_where update_where
  exists-update_none out [] = refl
  exists-update_none out (r ∷ t) = ground (arith, out r, exists-update_none out t)
