-- ===== src/Authority.antt =====
-- internal/ca/ca.go: the client certificates that the CA issues. PEM, X.509 and the random source are
-- fields of the library; the keys and files of the CA are those of Authority/Root.
pub mod Issuing
pub mod Files
pub mod Root
pub mod Serial
use praetor_server.Authority.Serial.{random_serial, Source}
use praetor_server.Prelude.{
  ℕ, ◌+◌, ◌-◌, ◌*◌, String, Bool, true, false, ◌&&◌, Option, none, some, List, [], ◌∷◌,
  if◌then◌else◌, ◌==◌, string_eq, Bytes,
}

-- The Go type of the key, and for ECDSA the name of its curve.
pub data PublicKey : Type 0 where
  ed25519 : PublicKey
  ecdsa : String → PublicKey
  other : PublicKey

pub record Extension : Type 0 where
  pub id : String
  pub critical : Bool

-- What the server reads of a parsed CSR; `signed` says that CheckSignature finds no error.
pub record Csr : Type 0 where
  pub signed : Bool
  pub key : PublicKey
  pub extensions : List Extension

pub data KeyUsage : Type 0 where
  digital_signature key_encipherment : KeyUsage

pub data ExtKeyUsage : Type 0 where
  client_auth : ExtKeyUsage

pub record Template : Type 0 where
  pub serial : ℕ
  pub common_name : String
  pub organizational_unit : List String
  pub not_before : ℕ
  pub not_after : ℕ
  pub key_usage : List KeyUsage
  pub ext_key_usage : List ExtKeyUsage

-- pem.Decode gives the type of the first block and its bytes. `random` is the random source as
-- randomSerial finds it, and `create` is x509.CreateCertificate with the root's certificate and key.
pub record Library : Type 0 where
  pub pem_decode : String → Option (String × String)
  pub parse_csr : String → Option Csr
  pub random : Source
  pub create : Template → PublicKey → Option String
  pub pem_encode : String → String → String

pub data CaError : Type 0 where
  invalid_pem parse_failed bad_signature bad_curve unsupported_key : CaError
  basic_constraints no_serial sign_failed : CaError

pub data Issue : Type 0 where
  issued : String → Issue
  rejected : CaError → Issue

abbrev pub minute : ℕ
minute = 60 * 1_000_000_000

-- The two readings of the clock are taken as one.
abbrev pub template : ℕ → ℕ → String → ℕ → Template
template now serial host_id ttl = record {
  serial = serial;
  common_name = host_id;
  organizational_unit = "praetor-agent" ∷ [];
  not_before = now - minute;
  not_after = now + ttl;
  key_usage = digital_signature ∷ key_encipherment ∷ [];
  ext_key_usage = client_auth ∷ [];
}

abbrev pub is_critical_constraint : Extension → Bool
is_critical_constraint x = x.id == "2.5.29.19" && x.critical

-- the loop over the extensions
unfoldable pub has_constraint : List Extension → Bool
has_constraint [] = false
has_constraint (x ∷ xs) =
    let rest = has_constraint xs in if is_critical_constraint x then true else rest

-- the type switch on the key: `none` if it is accepted
unfoldable pub key_error : PublicKey → Option CaError
key_error ed25519 = none
key_error (ecdsa curve) = if curve == "P-256" then none else some bad_curve
key_error other = some unsupported_key

abbrev pub signed_by : Library → Option String → Issue
signed_by l none = rejected sign_failed
signed_by l (some der) = issued (l.pem_encode "CERTIFICATE" der)

abbrev pub with_serial : Library → ℕ → Csr → String → ℕ → Option ℕ → Issue
with_serial l now csr host_id ttl none = rejected no_serial
with_serial l now csr host_id ttl (some serial) =
    signed_by l (l.create (template now serial host_id ttl) csr.key)

abbrev pub with_key : Library → ℕ → Csr → String → ℕ → Option CaError → Issue
with_key l now csr host_id ttl (some e) = rejected e
with_key l now csr host_id ttl none =
    if has_constraint csr.extensions
    then rejected basic_constraints
    else with_serial l now csr host_id ttl (random_serial l.random)

abbrev pub with_csr : Library → ℕ → String → ℕ → Option Csr → Issue
with_csr l now host_id ttl none = rejected parse_failed
with_csr l now host_id ttl (some csr) =
    if csr.signed
    then with_key l now csr host_id ttl (key_error csr.key)
    else rejected bad_signature

abbrev pub with_block : Library → ℕ → String → ℕ → Option (String × String) → Issue
with_block l now host_id ttl none = rejected invalid_pem
with_block l now host_id ttl (some (type, bytes)) =
    if type == "CERTIFICATE REQUEST"
    then with_csr l now host_id ttl (l.parse_csr bytes)
    else rejected invalid_pem

unfoldable pub issue_client : Library → ℕ → String → String → ℕ → Issue
issue_client l now csr_pem host_id ttl = with_block l now host_id ttl (l.pem_decode csr_pem)
