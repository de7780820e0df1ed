-- ===== src/Authority/Root.antt =====
-- New, generate, load and ServerTLSConfig of internal/ca/ca.go. The packages crypto and encoding/pem
-- are fields of Crypto; keys, certificates in DER and PEM texts are strings.
pub mod Written
pub mod Reload
pub mod Unusable
pub mod Names
mod Templates
unfoldable pub use Templates.*
use praetor_server.Prelude.{
  ℕ, ◌+◌, ◌-◌, ◌*◌, String, Bool, true, Option, none, some, List, [], ◌∷◌, ◌++◌, Bytes,
  if◌then◌else◌,
}
use praetor_server.Authority.{minute}
use praetor_server.Authority.Serial.{random_serial}
use praetor_server.Authority.Files.{
  Directory, RootError, mkdir_failed, no_key, no_serial, create_failed, parse_failed, tls_failed,
  read_failed, bad_pem, bad_key, not_ed25519, Os, Stat, found, not_exist, stat_error, stat,
  read_file, Entry, write_all,
}

abbrev pub root_key_file : String
root_key_file = "root.key"

abbrev pub root_cert_file : String
root_cert_file = "root.crt"

abbrev pub server_key_file : String
server_key_file = "server.key"

abbrev pub server_cert_file : String
server_cert_file = "server.crt"

pub record Ca : Type 0 where
  pub root_key : String
  pub root_cert : RootCertificate
  pub root_pem : String
  pub server_tls : TlsCertificate

pub data Made (A : Type 0) : Type 0 where
  made : A → Made A
  failed : RootError → Made A

-- `if err != nil { return nil, … }`
abbrev pub or_fail : {A B : Type 0} → RootError → Option A → (A → Made B) → Made B
or_fail e none next = failed e
or_fail e (some a) next = next a

-- The keys and certificates of generate.
pub record Material : Type 0 where
  pub root_key : String
  pub root_cert : RootCertificate
  pub root_pem : String
  pub root_key_pem : String
  pub server_pem : String
  pub server_key_pem : String

module _ (c : Crypto) where
  abbrev pub cert_pem : String → String
  cert_pem der = c.pem_encode "CERTIFICATE" der

  -- marshalEd25519PrivKey
  abbrev pub marshal_key : String → String
  marshal_key key = c.pem_encode "PRIVATE KEY" (c.marshal_pkcs8 key)

  abbrev pub with_server :
      ℕ → List String → String → String → RootCertificate → String × String → ℕ → Made Material
  with_server now names root_key root_der root_cert (server_pub, server_key) serial =
      or_fail create_failed
        (c.create (under root_cert (server_template c.parse_ip now serial names)) server_pub
          root_key)
        (λ der. made (record {
          root_key = root_key;
          root_cert = root_cert;
          root_pem = cert_pem root_der;
          root_key_pem = marshal_key root_key;
          server_pem = cert_pem der;
          server_key_pem = marshal_key server_key;
        }))

  abbrev pub with_root : Random → ℕ → List String → String × String → ℕ → Made Material
  with_root r now names (root_pub, root_key) serial =
      or_fail create_failed (c.create (self_signed (root_template now serial)) root_pub root_key)
        (λ der. or_fail parse_failed (c.parse_certificate der) (λ cert.
          or_fail no_key r.server_key (λ pair.
            or_fail no_serial (random_serial r.server_serial)
              (λ n. with_server now names root_key der cert pair n))))

  unfoldable pub material : Random → ℕ → List String → Made Material
  material r now names = or_fail no_key r.root_key (λ pair.
      or_fail no_serial (random_serial r.root_serial) (λ serial. with_root r now names pair serial))

  -- modes 0400 and 0444
  abbrev pub entries : Material → List Entry
  entries m =
      record { name = root_key_file; bytes = m.root_key_pem; mode = 4 * 64 }
      ∷ record { name = root_cert_file; bytes = m.root_pem; mode = 4 * 64 + 4 * 8 + 4 }
      ∷ record { name = server_key_file; bytes = m.server_key_pem; mode = 4 * 64 }
      ∷ record { name = server_cert_file; bytes = m.server_pem; mode = 4 * 64 + 4 * 8 + 4 }
      ∷ []

  abbrev pub with_files : Material → Option RootError × Directory → Made Ca × Directory
  with_files m (some e, d) = (failed e, d)
  with_files m (none, d) = (
    or_fail tls_failed (c.key_pair m.server_pem m.server_key_pem) (λ pair. made (record {
      root_key = m.root_key;
      root_cert = m.root_cert;
      root_pem = m.root_pem;
      server_tls = pair;
    })),
    d,
  )

  abbrev pub with_material : Os → Directory → Made Material → Made Ca × Directory
  with_material os d (failed e) = (failed e, d)
  with_material os d (made m) = with_files m (write_all os (entries m) d)

  unfoldable pub generate : Os → Random → ℕ → List String → Directory → Made Ca × Directory
  generate os r now names d = with_material os d (material r now names)

  abbrev ed25519_of : PrivateKey → Option String
  ed25519_of (ed25519_private key) = some key
  ed25519_of other_private = none

  -- what load does once the four files are read
  unfoldable pub parsed : String → String → String → String → Made Ca
  parsed root_key_pem root_pem server_pem server_key_pem =
      or_fail (bad_pem root_key_file) (c.pem_decode root_key_pem) (λ key_block.
        or_fail bad_key (c.parse_pkcs8 key_block.1) (λ any.
          or_fail not_ed25519 (ed25519_of any) (λ key.
            or_fail (bad_pem root_cert_file) (c.pem_decode root_pem) (λ block.
              or_fail parse_failed (c.parse_certificate block.1) (λ cert.
                or_fail tls_failed (c.key_pair server_pem server_key_pem) (λ pair. made (record {
                  root_key = key;
                  root_cert = cert;
                  root_pem = root_pem;
                  server_tls = pair;
                })))))))

  unfoldable pub load : Os → Directory → Made Ca
  load os d = or_fail (read_failed root_key_file) (read_file os root_key_file d) (λ root_key_pem.
      or_fail (read_failed root_cert_file) (read_file os root_cert_file d) (λ root_pem.
        or_fail (read_failed server_cert_file) (read_file os server_cert_file d) (λ server_pem.
          or_fail (read_failed server_key_file) (read_file os server_key_file d)
            (λ server_key_pem. parsed root_key_pem root_pem server_pem server_key_pem))))

  -- generate only if os.IsNotExist holds for the error of Stat
  abbrev pub new_with : Stat → Os → Random → ℕ → List String → Directory → Made Ca × Directory
  new_with not_exist os r now names d = generate os r now names d
  new_with (found f) os r now names d = (load os d, d)
  new_with stat_error os r now names d = (load os d, d)

  unfoldable pub new : Os → Random → ℕ → List String → Directory → Made Ca × Directory
  new os r now names d =
      if os.mkdir
      then new_with (stat os root_key_file d) os r now names d
      else (failed mkdir_failed, d)
