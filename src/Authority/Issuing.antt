-- ===== src/Authority/Issuing.antt =====
-- Which requests get a client certificate, and what is in it.
use praetor_server.Prelude.{
  ℕ, String, ◌≡◌, refl, true, false, none, some, List, [], ◌∷◌, arith, Bool-cases, Option-cases,
  eq_iff, ◌==◌, string_eq, inl, inr, ◌⊎◌, In, ◌<◌, ◌^◌, ◌∙◌, ap, sym,
}
use praetor_server.Authority.Serial.{
  random_serial, IsFilling, random_serial-bound, random_serial-injective,
}
use praetor_server.Authority.{
  PublicKey, ed25519, ecdsa, other, Extension, Csr, Library, issued, template, has_constraint,
  key_error, with_key, issue_client,
}

-- A CSR whose key and extensions are accepted, and the certificate that is made of it.
pub record IsCertified (l : Library) (now : ℕ) (csr : Csr) (host_id : String) (ttl : ℕ)
    (cert : String) : Type 0 where
  pub key : (csr.key ≡ ed25519) ⊎ (csr.key ≡ ecdsa "P-256")
  pub extensions : (x : Extension) → In x csr.extensions → x.id ≡ "2.5.29.19" → x.critical ≡ false
  pub serial : ℕ
  pub drawn : random_serial l.random ≡ some serial
  pub der : String
  pub made : l.create (template now serial host_id ttl) csr.key ≡ some der
  pub encoded : cert ≡ l.pem_encode "CERTIFICATE" der

-- A request that the CA accepts.
pub record IsIssued (l : Library) (now : ℕ) (csr_pem host_id : String) (ttl : ℕ) (cert : String)
    : Type 0 where
  pub bytes : String
  pub block : l.pem_decode csr_pem ≡ some ("CERTIFICATE REQUEST", bytes)
  pub csr : Csr
  pub parsed : l.parse_csr bytes ≡ some csr
  pub signed : csr.signed ≡ true
  pub certified : IsCertified l now csr host_id ttl cert

no_constraint :
    (xs : List Extension)
    → has_constraint xs ≡ false
    → (x : Extension) → In x xs
    → x.id ≡ "2.5.29.19"
    → x.critical ≡ false
unfolding has_constraint
no_constraint [] h x i e = absurd i
no_constraint (y ∷ ys) h x (inl same) e =
    ground (arith, h, same, e, eq_iff x.id "2.5.29.19", eq_iff y.id "2.5.29.19")
no_constraint (y ∷ ys) h x (inr i) e = no_constraint ys (ground (arith, h)) x i e

key_allowed : (k : PublicKey) → key_error k ≡ none → (k ≡ ed25519) ⊎ (k ≡ ecdsa "P-256")
unfolding key_error
key_allowed ed25519 h = inl refl
key_allowed (ecdsa curve) h = inr (ground (arith, h, eq_iff curve "P-256"))
key_allowed other h = absurd (ground (arith, h))

module _ (l : Library) (now : ℕ) (host_id : String) (ttl : ℕ) (cert : String) where
  key-IsCertified :
      (csr : Csr)
      → with_key l now csr host_id ttl (key_error csr.key) ≡ issued cert
      → IsCertified l now csr host_id ttl cert
  key-IsCertified csr h = elim (Option-cases (key_error csr.key)) [
    | inr (e, y) ↦ absurd (ground (arith, y, h))
    | inl k ↦ elim (Bool-cases (has_constraint csr.extensions)) [
      | inl y ↦ absurd (ground (arith, k, y, h))
      | inr c ↦ elim (Option-cases (random_serial l.random)) [
        | inl n ↦ absurd (ground (arith, k, c, n, h))
        | inr (serial, s) ↦
            elim (Option-cases (l.create (template now serial host_id ttl) csr.key)) [
              | inl n ↦ absurd (ground (arith, k, c, s, n, h))
              | inr (der, d) ↦ record {
                key = key_allowed csr.key k;
                extensions = no_constraint csr.extensions c;
                serial = serial;
                drawn = s;
                der = der;
                made = d;
                encoded = ground (arith, k, c, s, d, h);
              }
            ]
      ]
    ]
  ]

-- A certificate is issued only for a parsed CSR whose signature is right, whose key is Ed25519 or on
-- P-256, and which has no critical BasicConstraints; it is what CreateCertificate makes for that key
-- of a template with the serial number that was drawn, that names the host id, whatever the CSR
-- names, for client authentication only, from a minute ago until the TTL is over.
pub issue_client-IsIssued :
    (l : Library) (now : ℕ) (csr_pem host_id : String) (ttl : ℕ) (cert : String)
    → issue_client l now csr_pem host_id ttl ≡ issued cert
    → IsIssued l now csr_pem host_id ttl cert
unfolding issue_client
issue_client-IsIssued l now csr_pem host_id ttl cert h =
    elim (Option-cases (l.pem_decode csr_pem)) [
      | inl n ↦ absurd (ground (arith, n, h))
      | inr ((type, bytes), b) ↦ elim (Bool-cases (type == "CERTIFICATE REQUEST")) [
        | inr n ↦ absurd (ground (arith, b, n, h))
        | inl y ↦ elim (Option-cases (l.parse_csr bytes)) [
          | inl n ↦ absurd (ground (arith, b, y, n, h))
          | inr (csr, p) ↦ elim (Bool-cases csr.signed) [
            | inr n ↦ absurd (ground (arith, b, y, p, n, h))
            | inl s ↦ record {
              bytes = bytes;
              block = ground (arith, b, y, eq_iff type "CERTIFICATE REQUEST");
              csr = csr;
              parsed = p;
              signed = s;
              certified =
                  key-IsCertified l now host_id ttl cert csr (ground (arith, b, y, p, s, h));
            }
          ]
        ]
      ]
    ]

-- Two certificates that IssueClient issues, with whatever random sources that fill the buffer they
-- are given: the serial number in each template has at most 128 bits, and the two are the same only
-- if the same 16 bytes were drawn for both.
pub issued_serials :
    (l l' : Library) (now now' : ℕ) (csr_pem csr_pem' host_id host_id' : String) (ttl ttl' : ℕ)
    (cert cert' : String)
    → IsFilling l.random
    → IsFilling l'.random
    → issue_client l now csr_pem host_id ttl ≡ issued cert
    → issue_client l' now' csr_pem' host_id' ttl' ≡ issued cert'
    → (i : IsIssued l now csr_pem host_id ttl cert) × (i' : IsIssued l' now' csr_pem' host_id' ttl'
        cert')
      × (i.certified.serial < 2 ^ 128)
      × (i.certified.serial ≡ i'.certified.serial → l.random 16 ≡ l'.random 16)
issued_serials l l' now now' csr_pem csr_pem' host_id host_id' ttl ttl' cert cert' f f' h h' =
    let i = issue_client-IsIssued l now csr_pem host_id ttl cert h in
    let i' = issue_client-IsIssued l' now' csr_pem' host_id' ttl' cert' h' in
    (
      i,
      i',
      random_serial-bound l.random i.certified.serial i.certified.drawn f,
      λ e.
          random_serial-injective l.random i.certified.serial i.certified.drawn f l'.random f'
            (i'.certified.drawn ∙ ap some (sym e)),
    )
