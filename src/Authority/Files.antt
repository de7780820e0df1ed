-- ===== src/Authority/Files.antt =====
-- The files of the CA, and writeFile of internal/ca/ca.go. The directory `ca` of the data directory is
-- the map from the names of its files; what the operating system does with a call is an argument.
use praetor_server.Prelude.{
  ℕ, String, Bool, Option, none, some, List, [], ◌∷◌, if◌then◌else◌, ◌==◌, nat_eq,
}
use praetor_server.Dict.{Dict, insert, lookup}

pub record File : Type 0 where
  pub bytes : String
  pub mode : ℕ

abbrev pub Directory : Type 0
Directory = Dict File

-- The errors of New, with the file that they are about.
pub data RootError : Type 0 where
  mkdir_failed no_key no_serial create_failed parse_failed tls_failed : RootError
  write_failed stat_failed wrong_mode read_failed bad_pem : String → RootError
  bad_key not_ed25519 : RootError

-- os.WriteFile works, fails before it has opened the file, or fails when a part is written.
pub data Writing : Type 0 where
  complete refused : Writing
  broken_off : String → Writing

-- `masked` is the mode of a new file under the umask; the other fields say which calls work.
pub record Os : Type 0 where
  pub mkdir : Bool
  pub write : String → Writing
  pub stat : String → Bool
  pub read : String → Bool
  pub masked : ℕ → ℕ

-- os.Stat
pub data Stat : Type 0 where
  found : File → Stat
  not_exist stat_error : Stat

abbrev found_or_not : Option File → Stat
found_or_not none = not_exist
found_or_not (some f) = found f

unfoldable pub stat : Os → String → Directory → Stat
stat os name d = if os.stat name then found_or_not (lookup name d) else stat_error

abbrev data_of : Option File → Option String
data_of none = none
data_of (some f) = some f.bytes

-- os.ReadFile
unfoldable pub read_file : Os → String → Directory → Option String
read_file os name d = if os.read name then data_of (lookup name d) else none

-- a file that exists keeps its mode
abbrev pub mode_of : Os → ℕ → Option File → ℕ
mode_of os mode none = os.masked mode
mode_of os mode (some f) = f.mode

abbrev put : Os → String → String → ℕ → Directory → Directory
put os name bytes mode d =
    insert name (record { bytes = bytes; mode = mode_of os mode (lookup name d) }) d

abbrev pub verified : String → ℕ → Stat → Option RootError
verified name mode (found f) = if f.mode == mode then none else some (wrong_mode name)
verified name mode not_exist = some (stat_failed name)
verified name mode stat_error = some (stat_failed name)

abbrev pub checked : Os → String → ℕ → Directory → Option RootError × Directory
checked os name mode d = (verified name mode (stat os name d), d)

abbrev pub write_with :
    Writing → Os → String → String → ℕ → Directory → Option RootError × Directory
write_with refused os name bytes mode d = (some (write_failed name), d)
write_with (broken_off part) os name bytes mode d =
    (some (write_failed name), put os name part mode d)
write_with complete os name bytes mode d = checked os name mode (put os name bytes mode d)

unfoldable pub write_file : Os → String → String → ℕ → Directory → Option RootError × Directory
write_file os name bytes mode d = write_with (os.write name) os name bytes mode d

-- The name of a file, its data and its mode.
pub record Entry : Type 0 where
  pub name : String
  pub bytes : String
  pub mode : ℕ

abbrev and_then :
    (Directory → Option RootError × Directory)
    → Option RootError × Directory
    → Option RootError × Directory
and_then next (none, d) = next d
and_then next (some e, d) = (some e, d)

-- one writeFile after the other, until one fails
unfoldable pub write_all : Os → List Entry → Directory → Option RootError × Directory
write_all os [] d = (none, d)
write_all os (e ∷ es) d = and_then (write_all os es) (write_file os e.name e.bytes e.mode d)
