-- ===== src/Authority/Root/Reload.antt =====
-- A CA that was made is the CA that is loaded from its files.
use praetor_server.Authority.Serial.{random_serial}
use praetor_server.Authority.Files.{stat_error, not_exist, found}
use praetor_server.Dict.{lookup}
use praetor_server.Prelude.{
  ℕ, String, ◌≡◌, refl, true, Option, none, some, List, arith, All, ◌∙◌, ap, ◌≢◌, Bool-cases, inl,
  ◌⊎◌, inr, Option-cases, subst,
}
use praetor_server.Authority.Files.{
  Directory, Os, read_file, RootError, no_key, no_serial, create_failed, parse_failed, stat,
  not_exist, Stat, read_failed, found,
}
use praetor_server.Authority.Root.{
  Crypto, Random, Material, Made, made, or_fail, material, entries, parsed, load, ed25519_private,
  cert_pem, marshal_key, with_files, self_signed, root_template, under, server_template, Ca, new,
  root_key_file, root_cert_file, new_with, server_cert_file, server_key_file,
}
use praetor_server.Authority.Root.Written.{IsStored, IsGenerated, generate-IsGenerated}

-- Encoding and decoding: PEM keeps the type and the bytes of a block, and PKCS #8 a key.
pub record IsFaithful (c : Crypto) : Type 0 where
  pub pem : (type bytes : String) → c.pem_decode (c.pem_encode type bytes) ≡ some (type, bytes)
  pub key : (k : String) → c.parse_pkcs8 (c.marshal_pkcs8 k) ≡ some (ed25519_private k)

-- All calls on files that are there work.
pub record IsReadable (os : Os) : Type 0 where
  pub directory : os.mkdir ≡ true
  pub status : (name : String) → os.stat name ≡ true
  pub content : (name : String) → os.read name ≡ true

or_fail-made :
    {A B : Type 0} (e : RootError) (o : Option A) (next : A → Made B) (b : B)
    → or_fail e o next ≡ made b
    → (a : A) × (o ≡ some a) × (next a ≡ made b)
or_fail-made e none next b h = absurd (ground (arith, h))
or_fail-made e (some a) next b h = (a, refl, h)

module _ (c : Crypto) where
  -- What load reads back of the root.
  material_root :
      (r : Random) (now : ℕ) (names : List String) (m : Material)
      → material c r now names ≡ made m
      → (der : String) × (m.root_pem ≡ cert_pem c der)
        × (c.parse_certificate der ≡ some m.root_cert)
        × (m.root_key_pem ≡ marshal_key c m.root_key)
  unfolding material
  material_root r now names m h =
      let (pair, e1, h1) = or_fail-made no_key r.root_key _ m h in
      let (serial, e2, h2) = or_fail-made no_serial (random_serial r.root_serial) _ m h1 in
      let (der, e3, h3) =
        or_fail-made create_failed (c.create (self_signed (root_template now serial)) pair.0 pair.1)
          _ m h2 in
      let (cert, e4, h4) = or_fail-made parse_failed (c.parse_certificate der) _ m h3 in
      let (server, e5, h5) = or_fail-made no_key r.server_key _ m h4 in
      let (n, e6, h6) = or_fail-made no_serial (random_serial r.server_serial) _ m h5 in
      let (leaf, e7, h7) =
        or_fail-made create_failed
          (c.create (under cert (server_template c.parse_ip now n names)) server.0 pair.1) _ m h6 in
      (der, ground (arith, h7), ground (arith, e4, h7), ground (arith, h7))

  parsed-material :
      IsFaithful c
      → (m : Material) (der : String) → m.root_pem ≡ cert_pem c der
      → c.parse_certificate der ≡ some m.root_cert
      → m.root_key_pem ≡ marshal_key c m.root_key
      → (d : Directory)
      → parsed c m.root_key_pem m.root_pem m.server_pem m.server_key_pem
        ≡ (with_files c m (none, d)).0
  unfolding parsed
  parsed-material faithful m der pem cert key d = ground (
    arith,
    pem,
    cert,
    key,
    faithful.pem "CERTIFICATE" der,
    faithful.pem "PRIVATE KEY" (c.marshal_pkcs8 m.root_key),
    faithful.key m.root_key,
  )

  load-files :
      (os : Os) (m : Material) (d : Directory)
      → IsReadable os
      → All (IsStored d) (entries c m)
      → load c os d ≡ parsed c m.root_key_pem m.root_pem m.server_pem m.server_key_pem
  unfolding load read_file
  load-files os m d readable (k, (rc, (sk, (sc, _)))) = ground (
    arith,
    k,
    rc,
    sk,
    sc,
    readable.content "root.key",
    readable.content "root.crt",
    readable.content "server.key",
    readable.content "server.crt",
  )

  -- A generated CA is read back.
  generated-load :
      IsFaithful c
      → (os : Os) (r : Random) (now : ℕ) (names : List String) (ca : Ca) (d : Directory)
      → IsReadable os
      → IsGenerated c r now names ca d
      → load c os d ≡ made ca
  generated-load faithful os r now names ca d readable g =
      let (der, pem, cert, key) = material_root r now names g.m g.fresh in
      load-files os g.m d readable g.files
      ∙ (parsed-material faithful g.m der pem cert key d ∙ ap (λ x. x.0) g.result)

-- New generates when the root key is not there, and loads otherwise.
pub Stat-cases :
    (c : Crypto) (s : Stat)
    → (s ≡ not_exist)
      ⊎ ((os : Os) (r : Random) (now : ℕ) (names : List String) (d : Directory)
          → new_with c s os r now names d ≡ (load c os d, d))
Stat-cases c not_exist = inl refl
Stat-cases c (found f) = inr (λ os r now names d. refl)
Stat-cases c stat_error = inr (λ os r now names d. refl)

-- A file that was read once.
read_file-stays :
    (os os' : Os) (name bytes : String) (d : Directory)
    → IsReadable os'
    → read_file os name d ≡ some bytes
    → (read_file os' name d ≡ some bytes) × (stat os' name d ≢ not_exist)
unfolding read_file stat
read_file-stays os os' name bytes d readable h = elim (Bool-cases (os.read name)) [
  | inr n ↦ absurd (ground (arith, n, h))
  | inl y ↦ elim (Option-cases (lookup name d)) [
    | inl n ↦ absurd (ground (arith, y, n, h))
    | inr (f, e) ↦ (
      ground (arith, e, y, h, readable.content name),
      λ q. ground (arith, e, q, readable.status name),
    )
  ]
]

module _ (c : Crypto) (os os' : Os) (ca : Ca) (d : Directory) (readable : IsReadable os') where
  load-readable :
      load c os d ≡ made ca → (load c os' d ≡ made ca) × (stat os' root_key_file d ≢ not_exist)
  unfolding load
  load-readable h =
      let (k, e1, h1) =
        or_fail-made (read_failed root_key_file) (read_file os root_key_file d) _ ca h in
      let (rc, e2, h2) =
        or_fail-made (read_failed root_cert_file) (read_file os root_cert_file d) _ ca h1 in
      let (sc, e3, h3) =
        or_fail-made (read_failed server_cert_file) (read_file os server_cert_file d) _ ca h2 in
      let (sk, e4, h4) =
        or_fail-made (read_failed server_key_file) (read_file os server_key_file d) _ ca h3 in
      let (r1, there) = read_file-stays os os' root_key_file k d readable e1 in
      let (r2, _) = read_file-stays os os' root_cert_file rc d readable e2 in
      let (r3, _) = read_file-stays os os' server_cert_file sc d readable e3 in
      let (r4, _) = read_file-stays os os' server_key_file sk d readable e4 in
      (rw (r1, r2, r3, r4) h4, there)

  new-loaded :
      (r : Random) (now : ℕ) (names : List String)
      → load c os d ≡ made ca
      → new c os' r now names d ≡ (made ca, d)
  unfolding new
  new-loaded r now names h =
      let (same, there) = load-readable h in
      elim (Stat-cases c (stat os' root_key_file d)) [
        | inl q ↦ absurd (there q)
        | inr q ↦ ground (arith, readable.directory, same, q os' r now names d)
      ]

-- PEM and PKCS #8 give back what they encode. Then, once New has made or loaded a CA, every later New
-- on the directory, with any clock, random source and names, gives the same CA and writes nothing,
-- while the files can be read.
pub new-new :
    (c : Crypto)
    → IsFaithful c
    → (os os' : Os) (r r' : Random) (now now' : ℕ) (names names' : List String) (ca : Ca)
      (d d' : Directory)
    → IsReadable os'
    → new c os r now names d ≡ (made ca, d')
    → new c os' r' now' names' d' ≡ (made ca, d')
unfolding new
new-new c faithful os os' r r' now now' names names' ca d d' readable h =
    elim (Bool-cases os.mkdir) [
      | inr n ↦ absurd (ground (arith, n, h))
      | inl y ↦ elim (Stat-cases c (stat os root_key_file d)) [
        | inl q ↦
            let g = generate-IsGenerated c os r now names ca d d' (ground (arith, y, q, h)) in
            new-loaded c os' os' ca d' readable r' now' names'
              (generated-load c faithful os' r now names ca d' readable g)
        | inr q ↦
            let loaded : load c os d ≡ made ca = ground (arith, y, q os r now names d, h) in
            let same : d ≡ d' = ground (arith, y, q os r now names d, h) in
            subst (λ x. new c os' r' now' names' x ≡ (made ca, x)) same
              (new-loaded c os os' ca d readable r' now' names' loaded)
      ]
    ]
