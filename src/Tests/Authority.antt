-- ===== src/Tests/Authority.antt =====
-- A run of the CA.
use praetor_server.Prelude.{
  zero, suc, ap, subst, length, All, ℕ, ◌≡◌, refl, true, false, some, [], ◌∷◌, Bytes, ◌<◌, arith,
  ◌^◌, ℕ, suc, length, subst, All, ap,
}
use praetor_server.Authority.Serial.{random_serial, set_bytes, IsFilling, Source, Source, IsFilling}
use praetor_server.Authority.{Csr, ecdsa, Library, issued, issue_client, has_constraint, key_error}
use praetor_server.Authority.Issuing.{IsIssued, issue_client-IsIssued, issued_serials}

abbrev pub csr : Csr
csr = record {
  signed = true;
  key = ecdsa "P-256";
  extensions = record { id = "2.5.29.17"; critical = false } ∷ [];
}

-- a source of zeros
abbrev pub zeros : ℕ → Bytes
zeros zero = []
zeros (suc n) = 0 ∷ zeros n

abbrev pub source : Source
source n = some (zeros n)

abbrev pub functions : Library
functions = record {
  pem_decode = λ s. some ("CERTIFICATE REQUEST", s);
  parse_csr = λ s. some csr;
  random = source;
  create = λ t key. some t.common_name;
  pem_encode = λ type der. der;
}

issued_ok : issue_client functions 100 "csr" "h1" 50 ≡ issued "h1"
unfolding issue_client random_serial set_bytes has_constraint key_error
issued_ok = refl

issue_client-IsIssued_example : IsIssued functions 100 "csr" "h1" 50 "h1"
issue_client-IsIssued_example = issue_client-IsIssued functions 100 "csr" "h1" 50 "h1" issued_ok

zeros_filled : (n : ℕ) → (length (zeros n) ≡ n) × All (λ b. b < 256) (zeros n)
zeros_filled zero = (refl, tt)
zeros_filled (suc n) = let (l, p) = zeros_filled n in (ap suc l, (omega arith, p))

filling : IsFilling source
filling n bs e =
    let same : zeros n ≡ bs = ground (arith, e) in
    subst (λ b. (length b ≡ n) × All (λ x. x < 256) b) same (zeros_filled n)

issued_serials_example :
    (i : IsIssued functions 100 "csr" "h1" 50 "h1") × (i' : IsIssued functions 100 "csr" "h1" 50
      "h1")
    × (i.certified.serial < 2 ^ 128)
    × (i.certified.serial ≡ i'.certified.serial → functions.random 16 ≡ functions.random 16)
issued_serials_example =
    issued_serials functions functions 100 100 "csr" "csr" "h1" "h1" 50 50 "h1" "h1" filling filling
      issued_ok issued_ok
