-- ===== src/Process/Interleaved.antt =====
-- The effects of two goroutines of main, told apart again.
use praetor_server.Prelude.{◌≡◌, ap, refl, true, false, Bool, List, [], ◌∷◌, ◌++◌, All}
use praetor_server.Sql.{select}
use praetor_server.Process.{Effect, Listener, serves, breaks, refused, late, effects_of, interleave}

module _ (p : Effect → Bool) where
  select-kept : (xs : List Effect) → All (λ x. p x ≡ true) xs → select p xs ≡ xs
  unfolding select
  select-kept [] a = refl
  select-kept (x ∷ xs) (y, a) = rw y (ap (λ rest. x ∷ rest) (select-kept xs a))

  select-dropped : (xs : List Effect) → All (λ x. p x ≡ false) xs → select p xs ≡ []
  unfolding select
  select-dropped [] a = refl
  select-dropped (x ∷ xs) (n, a) = rw n (select-dropped xs a)

  select-first :
      (xs ys : List Effect)
      → All (λ x. p x ≡ true) xs
      → All (λ x. p x ≡ false) ys
      → select p (xs ++ ys) ≡ xs
  unfolding select
  select-first [] ys a b = select-dropped ys b
  select-first (x ∷ xs) ys (y, a) b = rw y (ap (λ rest. x ∷ rest) (select-first xs ys a b))

  select-second :
      (xs ys : List Effect)
      → All (λ x. p x ≡ false) xs
      → All (λ x. p x ≡ true) ys
      → select p (xs ++ ys) ≡ ys
  unfolding select
  select-second [] ys a b = select-kept ys b
  select-second (x ∷ xs) ys (n, a) b = rw n (select-second xs ys a b)

  -- Of two goroutines that get on in any order, each keeps its own order.
  pub interleave-first :
      (order : List Bool) (xs ys : List Effect)
      → All (λ x. p x ≡ true) xs
      → All (λ x. p x ≡ false) ys
      → select p (interleave order xs ys) ≡ xs
  unfolding select
  interleave-first [] xs ys a b = select-first xs ys a b
  interleave-first (true ∷ order) [] ys a b = select-dropped ys b
  interleave-first (true ∷ order) (x ∷ xs) ys (y, a) b =
      rw y (ap (λ rest. x ∷ rest) (interleave-first order xs ys a b))
  interleave-first (false ∷ order) xs [] a b = select-kept xs a
  interleave-first (false ∷ order) xs (y ∷ ys) a (n, b) = rw n (interleave-first order xs ys a b)

  pub interleave-second :
      (order : List Bool) (xs ys : List Effect)
      → All (λ x. p x ≡ false) xs
      → All (λ x. p x ≡ true) ys
      → select p (interleave order xs ys) ≡ ys
  unfolding select
  interleave-second [] xs ys a b = select-second xs ys a b
  interleave-second (true ∷ order) [] ys a b = select-kept ys b
  interleave-second (true ∷ order) (x ∷ xs) ys (n, a) b = rw n (interleave-second order xs ys a b)
  interleave-second (false ∷ order) xs [] a b = select-dropped xs a
  interleave-second (false ∷ order) xs (y ∷ ys) a (m, b) =
      rw m (ap (λ rest. y ∷ rest) (interleave-second order xs ys a b))

pub all_effects :
    (P : Effect → Type 0) (l : Listener) (up down : Effect)
    → P up
    → P down
    → All P (effects_of l up down)
all_effects P serves up down u d = (u, tt)
all_effects P breaks up down u d = (u, (d, tt))
all_effects P refused up down u d = (d, tt)
all_effects P late up down u d = tt
