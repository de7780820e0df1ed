-- ===== src/Authority/Root/Written.antt =====
-- What the calls of writeFile leave in the directory of the CA.
use praetor_server.Prelude.{
  ℕ, String, ◌≡◌, refl, true, false, none, some, List, [], ◌∷◌, ◌==◌, string_eq, nat_eq,
  nat_beq_iff, arith, Bool-cases, Option-cases, inl, inr, All, eq_iff, nat_beq, ◌⊎◌,
}
use praetor_server.Dict.{lookup, lookup-insert, insert}
use praetor_server.Authority.Root.{
  Crypto, Random, Made, made, failed, material, generate, entries, with_files, Ca, Material, new,
  root_key_file, root_cert_file, server_key_file, server_cert_file,
}
use praetor_server.Authority.Files.{
  Directory, Writing, complete, refused, broken_off, Os, stat, write_with, write_file, Entry,
  write_all, mode_of, checked, RootError, not_exist,
}

-- The entry stands in the directory, with its bytes and its mode.
abbrev pub IsStored : Directory → Entry → Type 0
IsStored d e = lookup e.name d ≡ some (record { bytes = e.bytes; mode = e.mode })

-- None of the entries is for this file.
abbrev pub IsUnnamed : String → List Entry → Type 0
IsUnnamed name = All (λ e. (e.name == name) ≡ false)

abbrev IsDistinct : List Entry → Type 0
IsDistinct [] = Unit
IsDistinct (e ∷ es) = IsUnnamed e.name es × IsDistinct es

same_name : (name : String) → (name == name) ≡ true
same_name name = ground (arith, eq_iff name name)

-- A file that was put there and has the mode that was asked for.
put-IsStored :
    (os : Os) (e : Entry) (old : ℕ) (d d' : Directory)
    → checked os e.name e.mode (insert e.name (record { bytes = e.bytes; mode = old }) d)
      ≡ (none, d')
    → IsStored d' e
unfolding stat
put-IsStored os e old d d' h =
    let mine = lookup-insert e.name e.name (record { bytes = e.bytes; mode = old }) d in
    elim (Bool-cases (os.stat e.name)) [
      | inr n ↦ absurd (ground (arith, n, h))
      | inl y ↦ elim (Bool-cases (nat_beq old e.mode)) [
        | inl same ↦ ground (arith, h, mine, same_name e.name, y, nat_beq_iff old e.mode)
        | inr n ↦ absurd (ground (arith, h, mine, same_name e.name, y, n))
      ]
    ]

module _ (os : Os) where
  write_with-IsStored :
      (w : Writing) (e : Entry) (d d' : Directory)
      → write_with w os e.name e.bytes e.mode d ≡ (none, d')
      → IsStored d' e
  write_with-IsStored refused e d d' h = absurd (ground (arith, h))
  write_with-IsStored (broken_off part) e d d' h = absurd (ground (arith, h))
  write_with-IsStored complete e d d' h =
      put-IsStored os e (mode_of os e.mode (lookup e.name d)) d d' h

  write_with-kept :
      (w : Writing) (name bytes asked : String) (mode : ℕ) (d : Directory)
      → (name == asked) ≡ false
      → lookup asked (write_with w os name bytes mode d).1 ≡ lookup asked d
  write_with-kept refused name bytes asked mode d h = refl
  write_with-kept (broken_off part) name bytes asked mode d h =
      rw
        (
          lookup-insert name asked (record { bytes = part; mode = mode_of os mode (lookup name d) })
              d,
          h,
        )
        refl
  write_with-kept complete name bytes asked mode d h =
      rw
        (
          lookup-insert name asked
              (record { bytes = bytes; mode = mode_of os mode (lookup name d) }) d,
          h,
        )
        refl

  pub write_all-kept :
      (es : List Entry) (asked : String) (d : Directory)
      → IsUnnamed asked es
      → lookup asked (write_all os es d).1 ≡ lookup asked d
  unfolding write_all write_file
  write_all-kept [] asked d h = refl
  write_all-kept (e ∷ es) asked d (n, ns) =
      let first = write_with-kept (os.write e.name) e.name e.bytes asked e.mode d n in
      elim (Option-cases (write_file os e.name e.bytes e.mode d).0) [
        | inl ok ↦
            ground (
              arith,
              ok,
              first,
              write_all-kept es asked (write_file os e.name e.bytes e.mode d).1 ns,
            )
        | inr (x, bad) ↦ ground (arith, bad, first)
      ]

  write_all-IsStored :
      (es : List Entry) (d d' : Directory)
      → IsDistinct es
      → write_all os es d ≡ (none, d')
      → All (IsStored d') es
  unfolding write_all write_file
  write_all-IsStored [] d d' _ h = tt
  write_all-IsStored (e ∷ es) d d' (n, ns) h =
      let next = (write_file os e.name e.bytes e.mode d).1 in
      elim (Option-cases (write_file os e.name e.bytes e.mode d).0) [
        | inr (x, bad) ↦ absurd (ground (arith, bad, h))
        | inl ok ↦
            let rest : write_all os es next ≡ (none, d') = ground (arith, ok, h) in
            (
              ground (
                arith,
                write_with-IsStored (os.write e.name) e d next (ground (arith, ok)),
                write_all-kept es e.name next n,
                rest,
              ),
              write_all-IsStored es next d' ns rest,
            )
      ]

pub Made-cases :
    {A : Type 0} (x : Made A) → ((e : RootError) × (x ≡ failed e)) ⊎ ((a : A) × (x ≡ made a))
Made-cases (failed e) = inl (e, refl)
Made-cases (made a) = inr (a, refl)

-- The keys and certificates that a generate made, which are all in their files.
pub record IsGenerated (c : Crypto) (r : Random) (now : ℕ) (names : List String) (ca : Ca)
    (d : Directory) : Type 0 where
  pub m : Material
  pub fresh : material c r now names ≡ made m
  pub files : All (IsStored d) (entries c m)
  pub result : with_files c m (none, d) ≡ (made ca, d)

module _ (c : Crypto) (os : Os) (r : Random) (now : ℕ) (names : List String) where
  pub generate-IsGenerated :
      (ca : Ca) (d d' : Directory)
      → generate c os r now names d ≡ (made ca, d')
      → IsGenerated c r now names ca d'
  unfolding generate
  generate-IsGenerated ca d d' h = elim (Made-cases (material c r now names)) [
    | inl (e, bad) ↦ absurd (ground (arith, bad, h))
    | inr (m, good) ↦
        let after = write_all os (entries c m) d in
        elim (Option-cases after.0) [
          | inr (e, bad) ↦ absurd (ground (arith, bad, good, h))
          | inl ok ↦
              let same : after.1 ≡ d' = ground (arith, ok, good, h) in
              record {
                m = m;
                fresh = good;
                files =
                    write_all-IsStored os (entries c m) d d'
                      ((refl, (refl, (refl, tt))), ((refl, (refl, tt)), ((refl, tt), (tt, tt))))
                      (ground (arith, ok, same));
                result = ground (arith, ok, good, same, h);
              }
        ]
  ]

-- The file is there and has the mode.
abbrev pub HasMode : Directory → String → ℕ → Type 0
HasMode d name mode =
    (bytes : String) × (lookup name d ≡ some (record { bytes = bytes; mode = mode }))

-- When New makes a CA where there is no root key, both private keys can be read by the owner of the
-- files only (mode 0400) and both certificates by all (0444), whatever the umask is and whatever
-- files were there.
pub new_modes :
    (c : Crypto) (os : Os) (r : Random) (now : ℕ) (names : List String) (ca : Ca) (d d' : Directory)
    → stat os root_key_file d ≡ not_exist
    → new c os r now names d ≡ (made ca, d')
    → HasMode d' root_key_file 256
      × HasMode d' root_cert_file 292
      × HasMode d' server_key_file 256
      × HasMode d' server_cert_file 292
unfolding new
new_modes c os r now names ca d d' none_yet h = elim (Bool-cases os.mkdir) [
  | inr n ↦ absurd (ground (arith, n, h))
  | inl y ↦
      let g = generate-IsGenerated c os r now names ca d d' (ground (arith, y, none_yet, h)) in
      let (k, (rc, (sk, (sc, _)))) = g.files in
      ((g.m.root_key_pem, k), (g.m.root_pem, rc), (g.m.server_key_pem, sk), (g.m.server_pem, sc))
]
