-- ===== src/Authority/Root/Templates.antt =====
-- The templates of internal/ca/ca.go for the root and for the server, and the library that signs them.
use praetor_server.Prelude.{
  ℕ, ◌+◌, ◌-◌, ◌*◌, String, Bool, true, Option, none, some, List, [], ◌∷◌, ◌++◌, Bytes,
}
use praetor_server.Authority.{minute, Source}

pub data KeyUsage : Type 0 where
  cert_sign crl_sign digital_signature key_encipherment : KeyUsage

pub data ExtKeyUsage : Type 0 where
  server_auth : ExtKeyUsage

pub record RootTemplate : Type 0 where
  pub serial : ℕ
  pub common_name : String
  pub organization : List String
  pub not_before : ℕ
  pub not_after : ℕ
  pub key_usage : List KeyUsage
  pub basic_constraints_valid : Bool
  pub is_ca : Bool
  pub max_path_len : ℕ
  pub max_path_len_zero : Bool

pub record ServerTemplate : Type 0 where
  pub serial : ℕ
  pub common_name : String
  pub organization : List String
  pub dns_names : List String
  pub ip_addresses : List Bytes
  pub not_before : ℕ
  pub not_after : ℕ
  pub key_usage : List KeyUsage
  pub ext_key_usage : List ExtKeyUsage

-- x509.Certificate of the root, as it is parsed
pub record RootCertificate : Type 0 where
  pub raw : String

pub record TlsCertificate : Type 0 where
  pub chain : List String
  pub key : String

-- what x509.CreateCertificate is asked for: a template that signs itself, or one below the root
pub data Request : Type 0 where
  self_signed : RootTemplate → Request
  under : RootCertificate → ServerTemplate → Request

-- what x509.ParsePKCS8PrivateKey finds
pub data PrivateKey : Type 0 where
  ed25519_private : String → PrivateKey
  other_private : PrivateKey

-- `create` has the request, the public key that is certified and the private key that signs.
pub record Crypto : Type 0 where
  pub create : Request → String → String → Option String
  pub parse_certificate : String → Option RootCertificate
  pub marshal_pkcs8 : String → String
  pub parse_pkcs8 : String → Option PrivateKey
  pub pem_encode : String → String → String
  pub pem_decode : String → Option (String × String)
  pub key_pair : String → String → Option TlsCertificate
  pub parse_ip : String → Option Bytes

-- What the random source yields in one call of generate: a pair is a public and a private key, and
-- the sources are those that randomSerial reads.
pub record Random : Type 0 where
  pub root_key : Option (String × String)
  pub root_serial : Source
  pub server_key : Option (String × String)
  pub server_serial : Source

abbrev year : ℕ
year = 365 * 24 * 60 * minute

-- the readings of the clock are taken as one
abbrev pub root_template : ℕ → ℕ → RootTemplate
root_template now serial = record {
  serial = serial;
  common_name = "Praetor Root CA";
  organization = "Praetor" ∷ [];
  not_before = now - minute;
  not_after = now + 10 * year;
  key_usage = cert_sign ∷ crl_sign ∷ [];
  basic_constraints_valid = true;
  is_ca = true;
  max_path_len = 0;
  max_path_len_zero = true;
}

-- net.ParseIP("127.0.0.1"), in its form of 16 bytes
abbrev pub loopback : Bytes
loopback = 0 ∷ 0 ∷ 0 ∷ 0 ∷ 0 ∷ 0 ∷ 0 ∷ 0 ∷ 0 ∷ 0 ∷ 255 ∷ 255 ∷ 127 ∷ 0 ∷ 0 ∷ 1 ∷ []

abbrev pub sort_name : Option Bytes → String → List String × List Bytes → List String × List Bytes
sort_name (some ip) name (names, ips) = (names, ips ++ ip ∷ [])
sort_name none name (names, ips) = (names ++ name ∷ [], ips)

-- the loop over dnsNames, with certDNSNames and certIPAddrs
unfoldable pub sort_names :
    (String → Option Bytes) → List String → List String × List Bytes → List String × List Bytes
sort_names parse_ip [] acc = acc
sort_names parse_ip (n ∷ ns) acc = sort_names parse_ip ns (sort_name (parse_ip n) n acc)

abbrev pub server_template : (String → Option Bytes) → ℕ → ℕ → List String → ServerTemplate
server_template parse_ip now serial names =
    let sorted = sort_names parse_ip names ([], loopback ∷ []) in
    record {
      serial = serial;
      common_name = "praetor-server";
      organization = "Praetor" ∷ [];
      dns_names = sorted.0;
      ip_addresses = sorted.1;
      not_before = now - minute;
      not_after = now + year;
      key_usage = digital_signature ∷ key_encipherment ∷ [];
      ext_key_usage = server_auth ∷ [];
    }
