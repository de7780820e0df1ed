-- ===== src/Dict.antt =====
-- Go maps with string keys, as association lists.
use praetor_server.Prelude.{
  String, ◌≡◌, refl, Option, none, some, List, [], ◌∷◌, if◌then◌else◌, arith, ◌==◌, string_eq,
  eq_iff,
}

abbrev pub Dict {ℓ} : Type ℓ → Type ℓ
Dict V = List (String × V)

module _ {ℓ} {V : Type ℓ} where
  -- m[key] = value: the entry of the key is replaced in its place
  unfoldable pub insert : String → V → Dict V → Dict V
  insert key value [] = (key, value) ∷ []
  insert key value ((name, old) ∷ entries) =
      let after = insert key value entries in
      if name == key then (key, value) ∷ entries else (name, old) ∷ after

  -- delete(m, key)
  unfoldable pub delete : String → Dict V → Dict V
  delete key [] = []
  delete key ((name, old) ∷ entries) =
      let after = delete key entries in if name == key then after else (name, old) ∷ after

  -- value, ok := m[key]
  unfoldable pub lookup : String → Dict V → Option V
  lookup key [] = none
  lookup key ((name, value) ∷ entries) =
      let later = lookup key entries in if name == key then some value else later

  pub lookup-delete :
      (key asked : String) (entries : Dict V)
      → lookup asked (delete key entries) ≡ (if key == asked then none else lookup asked entries)
  unfolding lookup delete
  lookup-delete key asked [] = ground arith
  lookup-delete key asked ((name, old) ∷ entries) =
      ground (
        arith,
        lookup-delete key asked entries,
        eq_iff name asked,
        eq_iff name key,
        eq_iff key asked,
      )

  pub lookup-insert :
      (key asked : String) (value : V) (entries : Dict V)
      → lookup asked (insert key value entries)
        ≡ (if key == asked then some value else lookup asked entries)
  unfolding lookup insert
  lookup-insert key asked value [] = refl
  lookup-insert key asked value ((name, old) ∷ entries) = ground (
    arith,
    lookup-insert key asked value entries,
    eq_iff name asked,
    eq_iff name key,
    eq_iff key asked,
  )
