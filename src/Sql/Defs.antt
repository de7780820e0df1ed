-- ===== src/Sql/Defs.antt =====
-- The clauses of SQL that the statements use.
use praetor_server.Prelude.{
  ℕ, suc, ◌≡◌, Bool, true, false, Option, none, some, List, [], ◌∷◌, if◌then◌else◌,
}

module _ {ℓ} {A : Type ℓ} where
  -- SELECT ... WHERE
  unfoldable pub select : (A → Bool) → List A → List A
  select p [] = []
  select p (r ∷ t) = let rest = select p t in if p r then r ∷ rest else rest

  -- QueryRow(...).Scan: the first row, or no row.
  abbrev pub first : List A → Option A
  first [] = none
  first (r ∷ t) = some r

  -- UPDATE ... SET f WHERE p
  unfoldable pub update_where : (A → Bool) → (A → A) → List A → List A
  update_where p f [] = []
  update_where p f (r ∷ t) = (if p r then f r else r) ∷ update_where p f t

  -- what a unique index or a foreign key asks
  unfoldable pub exists_where : (A → Bool) → List A → Bool
  exists_where p [] = false
  exists_where p (r ∷ t) = let rest = exists_where p t in if p r then true else rest

  unfoldable pub count_where : (A → Bool) → List A → ℕ
  count_where p [] = 0
  count_where p (r ∷ t) = let rest = count_where p t in if p r then suc rest else rest

  -- ORDER BY: rows that tie keep the order of the table.
  unfoldable pub insert_by : (A → A → Bool) → A → List A → List A
  insert_by before r [] = r ∷ []
  insert_by before r (s ∷ t) =
      let later = insert_by before r t in if before r s then r ∷ s ∷ t else s ∷ later

  unfoldable pub order_by : (A → A → Bool) → List A → List A
  unfolding insert_by
  order_by before [] = []
  order_by before (r ∷ t) = insert_by before r (order_by before t)

  -- each row comes before the next
  abbrev pub IsSorted : (A → A → Bool) → List A → Type 0
  IsSorted before [] = Unit
  IsSorted before (r ∷ []) = Unit
  IsSorted before (r ∷ s ∷ t) = (before r s ≡ true) × IsSorted before (s ∷ t)
