-- ===== src/Authority/Root/Unusable.antt =====
-- A directory of the CA in which some files are missing.
use praetor_server.Authority.Root.Reload.{Stat-cases}
use praetor_server.Prelude.{
  ℕ, String, ◌≡◌, true, none, some, List, arith, Bool-cases, Option-cases, inl, inr, ap, ◌∙◌, subst,
  sym,
}
use praetor_server.Dict.{lookup, insert, lookup-insert}
use praetor_server.Authority.Files.{
  Directory, RootError, Os, stat, read_file, not_exist, write_file, write_all, complete, refused,
  read_failed, mkdir_failed, File, mode_of, checked, write_failed,
}
use praetor_server.Authority.Root.{
  Crypto, Random, Ca, Made, made, failed, material, load, new, generate, root_key_file, Material,
  root_cert_file,
}

-- New ends with an error, and the directory is as it was.
abbrev pub IsRefused : Made Ca × Directory → Directory → Type 0
IsRefused r d = (e : RootError) × (r ≡ (failed e, d))

-- A root key is there and a certificate is not.
abbrev pub IsHalf : Directory → Type 0
IsHalf d = ((lookup root_key_file d ≡ none) → ⊥) × (lookup root_cert_file d ≡ none)

not_exist-none :
    (os : Os) (name : String) (d : Directory) → stat os name d ≡ not_exist → lookup name d ≡ none
unfolding stat
not_exist-none os name d q = elim (Option-cases (lookup name d)) [
  | inl n ↦ n
  | inr (f, e) ↦ absurd (elim (Bool-cases (os.stat name)) [
    | inl y ↦ ground (arith, e, y, q)
    | inr n ↦ ground (arith, n, q)
  ])
]

module _ (c : Crypto) where
  load-half : (os : Os) (d : Directory) → IsHalf d → (e : RootError) × (load c os d ≡ failed e)
  unfolding load read_file
  load-half os d (key, cert) = elim (Option-cases (lookup root_key_file d)) [
    | inl n ↦ absurd (key n)
    | inr (f, e) ↦ elim (Bool-cases (os.read root_key_file)) [
      | inr n ↦ (read_failed root_key_file, ground (arith, n))
      | inl y ↦ elim (Bool-cases (os.read root_cert_file)) [
        | inr n ↦ (read_failed root_cert_file, ground (arith, e, y, n))
        | inl z ↦ (read_failed root_cert_file, ground (arith, e, y, z, cert))
      ]
    ]
  ]

  -- While the root key is there and the root certificate is not, New fails and writes nothing.
  half-IsRefused :
      (os : Os) (r : Random) (now : ℕ) (names : List String) (d : Directory)
      → IsHalf d
      → IsRefused (new c os r now names d) d
  unfolding new
  half-IsRefused os r now names d half =
      let (e, bad) = load-half os d half in
      elim (Bool-cases os.mkdir) [
        | inr n ↦ (mkdir_failed, ground (arith, n))
        | inl y ↦ elim (Stat-cases c (stat os root_key_file d)) [
          | inl q ↦ absurd (half.0 (not_exist-none os root_key_file d q))
          | inr q ↦ (e, ground (arith, y, bad, q os r now names d))
        ]
      ]

  -- The first write has worked and the second has failed before its file was there.
  generate-IsHalf :
      (os : Os) (r : Random) (now : ℕ) (names : List String) (d : Directory) (m : Material)
      → material c r now names ≡ made m
      → lookup root_cert_file d ≡ none
      → os.write root_key_file ≡ complete
      → os.write root_cert_file ≡ refused
      → IsHalf (generate c os r now names d).1
        × ((e : RootError) × ((generate c os r now names d).0 ≡ failed e))
  unfolding generate write_all write_file
  generate-IsHalf os r now names d m fresh none_yet w1 w2 =
      let f : File = record {
        bytes = m.root_key_pem;
        mode = mode_of os 256 (lookup root_key_file d);
      } in
      let d1 = insert root_key_file f d in
      let key : lookup root_key_file d1 ≡ some f = lookup-insert root_key_file root_key_file f d in
      let cert : lookup root_cert_file d1 ≡ none =
        lookup-insert root_key_file root_cert_file f d ∙ none_yet in
      let half : IsHalf d1 = (λ n. ground (arith, n, key), cert) in
      elim (Option-cases (checked os root_key_file 256 d1).0) [
        | inl ok ↦
            let same : (generate c os r now names d) ≡ (failed (write_failed root_cert_file), d1) =
              ground (arith, fresh, w1, w2, ok) in
            (
              subst IsHalf (sym (ap (λ x. x.1) same)) half,
              (write_failed root_cert_file, ap (λ x. x.0) same),
            )
        | inr (e, bad) ↦
            let same : (generate c os r now names d) ≡ (failed e, d1) =
              ground (arith, fresh, w1, w2, bad) in
            (subst IsHalf (sym (ap (λ x. x.1) same)) half, (e, ap (λ x. x.0) same))
      ]

-- In a directory without a root key and a root certificate, New fails when the root key is written and
-- the write of the root certificate is refused, and so does every later New on what it has left,
-- whatever works then.
pub new_stuck :
    (c : Crypto) (os : Os) (r : Random) (now : ℕ) (names : List String) (d : Directory)
    (m : Material)
    → os.mkdir ≡ true
    → stat os root_key_file d ≡ not_exist
    → material c r now names ≡ made m
    → lookup root_cert_file d ≡ none
    → os.write root_key_file ≡ complete
    → os.write root_cert_file ≡ refused
    → ((e : RootError) × ((new c os r now names d).0 ≡ failed e))
      × ((os' : Os) (r' : Random) (now' : ℕ) (names' : List String)
          → IsRefused
              (new c os' r' now' names' (new c os r now names d).1)
              (new c os r now names d).1)
unfolding new
new_stuck c os r now names d m dir none_yet fresh no_cert w1 w2 =
    let (half, bad) = generate-IsHalf c os r now names d m fresh no_cert w1 w2 in
    let same : new c os r now names d ≡ generate c os r now names d =
      ground (arith, dir, none_yet) in
    (
      (bad.0, ap (λ x. x.0) same ∙ bad.1),
      λ os' r' now' names'.
          half-IsRefused c os' r' now' names' (new c os r now names d).1
            (subst (λ x. IsHalf x.1) (sym same) half),
    )
