-- ===== src/Tests/Root.antt =====
-- Runs of New on directories of the CA, with an encoding that can be read back.
use praetor_server.Prelude.{
  ℕ, String, ◌≡◌, refl, true, Option, none, some, List, [], ◌∷◌, if◌then◌else◌, nat_beq, ◌==◌,
  string_eq,
}
use Prim.Native.Char.{Char, code}
use praetor_server.Dict.{lookup, insert}
use praetor_server.Authority.Files.{
  Directory, RootError, Os, complete, refused, stat, not_exist, write_all, write_file,
}
use praetor_server.Tests.Authority.{source}
use praetor_server.Authority.Serial.{random_serial, set_bytes}
use praetor_server.Authority.Root.{
  Crypto, Random, Ca, made, failed, Material, new, generate, material, sort_names, ed25519_private,
  root_key_file, root_cert_file, server_key_file, server_cert_file,
}
use praetor_server.Authority.Root.Written.{HasMode, new_modes}
use praetor_server.Authority.Root.Reload.{IsFaithful, IsReadable, new-new}
use praetor_server.Authority.Root.Unusable.{IsRefused, new_stuck}

abbrev mark : Char
mark = "x"

abbrev stop : Char
stop = "y"

-- a text in which a mark comes before each character, a stop, and the other text
pub encode : String → String → String
encode String.[] bytes = String.◌∷◌ stop bytes
encode (String.◌∷◌ c type) bytes = String.◌∷◌ mark (String.◌∷◌ c (encode type bytes))

longer : Char → Option (String × String) → Option (String × String)
longer c none = none
longer c (some (type, bytes)) = some (String.◌∷◌ c type, bytes)

pub decode : String → Option (String × String)
decode String.[] = none
decode (String.◌∷◌ m String.[]) = if nat_beq (code m) b'y' then some ("", "") else none
decode (String.◌∷◌ m (String.◌∷◌ c rest)) =
    let later = decode rest in
    if nat_beq (code m) b'y' then some ("", String.◌∷◌ c rest) else longer c later

decode-encode : (type bytes : String) → decode (encode type bytes) ≡ some (type, bytes)
unfolding decode encode longer
decode-encode String.[] String.[] = refl
decode-encode String.[] (String.◌∷◌ c bytes) = refl
decode-encode (String.◌∷◌ c type) bytes = rw (decode-encode type bytes) refl

abbrev pub crypto : Crypto
crypto = record {
  create = λ request public private. some public;
  parse_certificate = λ der. some (record { raw = der });
  marshal_pkcs8 = λ key. key;
  parse_pkcs8 = λ der. some (ed25519_private der);
  pem_encode = encode;
  pem_decode = decode;
  key_pair = λ cert key. some (record { chain = cert ∷ []; key = key });
  parse_ip = λ name. none;
}

faithful : IsFaithful crypto
faithful = record { pem = decode-encode; key = λ k. refl }

abbrev pub os : Os
os = record {
  mkdir = true;
  write = λ name. complete;
  stat = λ name. true;
  read = λ name. true;
  masked = λ mode. mode;
}

readable : IsReadable os
readable = record { directory = refl; status = λ name. refl; content = λ name. refl }

abbrev pub random : Random
random = record {
  root_key = some ("root public", "root private");
  root_serial = source;
  server_key = some ("server public", "server private");
  server_serial = source;
}

abbrev pub ca : Ca
ca = record {
  root_key = "root private";
  root_cert = record { raw = "root public" };
  root_pem = encode "CERTIFICATE" "root public";
  server_tls = record {
    chain = encode "CERTIFICATE" "server public" ∷ [];
    key = encode "PRIVATE KEY" "server private";
  };
}

abbrev filled : Directory
filled = (new crypto os random 100 ("localhost" ∷ []) []).1

new_ok : new crypto os random 100 ("localhost" ∷ []) [] ≡ (made ca, filled)
unfolding random_serial set_bytes new generate material stat write_all write_file lookup insert
    sort_names
new_ok = refl

new-new_example : new crypto os random 200 [] filled ≡ (made ca, filled)
new-new_example =
    new-new crypto faithful os os random random 100 200 ("localhost" ∷ []) [] ca [] filled readable
      new_ok

empty : stat os root_key_file [] ≡ not_exist
unfolding stat lookup
empty = refl

new_modes_example :
    HasMode filled root_key_file 256
    × HasMode filled root_cert_file 292
    × HasMode filled server_key_file 256
    × HasMode filled server_cert_file 292
new_modes_example = new_modes crypto os random 100 ("localhost" ∷ []) ca [] filled empty new_ok

-- a disk on which the root certificate cannot be written
abbrev full : Os
full = record os { write = λ name. if name == "root.crt" then refused else complete }

abbrev keys : Material
keys = record {
  root_key = "root private";
  root_cert = record { raw = "root public" };
  root_pem = encode "CERTIFICATE" "root public";
  root_key_pem = encode "PRIVATE KEY" "root private";
  server_pem = encode "CERTIFICATE" "server public";
  server_key_pem = encode "PRIVATE KEY" "server private";
}

keys_ok : material crypto random 100 [] ≡ made keys
unfolding random_serial set_bytes material sort_names
keys_ok = refl

empty_full : stat full root_key_file [] ≡ not_exist
unfolding stat lookup
empty_full = refl

abbrev nothing : Directory
nothing = []

no_certificate : lookup root_cert_file nothing ≡ none
unfolding lookup
no_certificate = refl

abbrev half : Directory
half = (new crypto full random 100 [] []).1

new_stuck_example :
    ((e : RootError) × ((new crypto full random 100 [] []).0 ≡ failed e))
    × ((os' : Os) (r' : Random) (now' : ℕ) (names' : List String)
        → IsRefused (new crypto os' r' now' names' half) half)
new_stuck_example =
    new_stuck crypto full random 100 [] [] keys refl empty_full keys_ok no_certificate refl refl
