-- ===== src/Cli/Flags.antt =====
-- The flags that the subcommands declare, as the package flag parses them.
use praetor_server.Prelude.{
  ℤ, String, Bool, true, false, Option, none, some, List, [], ◌∷◌, if◌then◌else◌, ◌==◌, ◌||◌,
  string_eq, nat_beq, pos,
}
use praetor_server.Dict.{Dict, insert, lookup}
use Prim.Native.Char.{Char, code}

-- A flag is known by its name; its value tells its type, and is the default before it is set.
pub data Value : Type 0 where
  text : String → Value
  switch : Bool → Value
  duration : ℤ → Value

abbrev pub Values : Type 0
Values = Dict Value

-- What one argument is: the first that is no flag ends the flags, and so does "--".
pub data Word : Type 0 where
  operand terminator bad_syntax : Word
  option : String → Option String → Word

abbrev with_first : Char → String × Option String → String × Option String
with_first c (name, value) = (String.◌∷◌ c name, value)

-- the loop that looks for `=` after the first character of a name
unfoldable pub cut : String → String × Option String
cut String.[] = ("", none)
cut (String.◌∷◌ c s) =
    let rest = cut s in if nat_beq (code c) b'=' then ("", some s) else with_first c rest

abbrev pub named : String → Word
named String.[] = bad_syntax
named (String.◌∷◌ c s) =
    if nat_beq (code c) b'-' || nat_beq (code c) b'='
    then bad_syntax
    else (let (name, value) = cut s in option (String.◌∷◌ c name) value)

-- the text after the first `-`
abbrev pub after_dash : String → Word
after_dash String.[] = operand
after_dash (String.◌∷◌ c s) =
    if nat_beq (code c) b'-'
    then (if s == "" then terminator else named s)
    else named (String.◌∷◌ c s)

unfoldable pub word : String → Word
unfolding cut
word String.[] = operand
word (String.◌∷◌ c s) = if nat_beq (code c) b'-' then after_dash s else operand

-- strconv.ParseBool
abbrev parse_bool : String → Option Bool
parse_bool s =
    if s == "1" || s == "t" || s == "T" || s == "TRUE" || s == "true" || s == "True"
    then some true
    else if s == "0" || s == "f" || s == "F" || s == "FALSE" || s == "false" || s == "False"
    then some false
    else none

-- What Parse ends with: the values and the arguments that are left, or an exit with the status 2, or
-- with 0 after the help.
pub data Parsed : Type 0 where
  parsed : Values → List String → Parsed
  wrong_usage help : Parsed

abbrev undefined_flag : String → Parsed
undefined_flag name = if name == "help" || name == "h" then help else wrong_usage

abbrev map_value : {T : Type 0} → (T → Value) → Option T → Option Value
map_value f none = none
map_value f (some x) = some (f x)

-- `parse_duration` stands for time.ParseDuration.
module _ (parse_duration : String → Option ℤ) where
  -- Set of a flag whose value is `old`
  abbrev read_value : Value → String → Option Value
  read_value (text old) s = some (text s)
  read_value (switch old) s = map_value switch (parse_bool s)
  read_value (duration old) s = map_value duration (parse_duration s)

  abbrev given : String → Option Value → Values → (Values → Parsed) → Parsed
  given name none values next = wrong_usage
  given name (some v) values next = next (insert name v values)

  -- A flag that is not given its value by `=`: a switch is set, another takes the next argument.
  abbrev bare :
      String → Value → List String → Values → (Values → Parsed) → (Values → Parsed) → Parsed
  bare name (switch old) following values next after = next (insert name (switch true) values)
  bare name old [] values next after = wrong_usage
  bare name old (a ∷ following) values next after = given name (read_value old a) values after

  abbrev declared :
      String
      → Option String
      → Option Value
      → List String
      → Values
      → (Values → Parsed)
      → (Values → Parsed)
      → Parsed
  declared name value none following values next after = undefined_flag name
  declared name (some s) (some old) following values next after =
      given name (read_value old s) values next
  declared name none (some old) following values next after =
      bare name old following values next after

  -- One argument and what follows it; `next` parses all that follows, `after` all but the first of it.
  abbrev pub one :
      Word → List String → List String → Values → (Values → Parsed) → (Values → Parsed) → Parsed
  one operand here following values next after = parsed values here
  one terminator here following values next after = parsed values following
  one bad_syntax here following values next after = wrong_usage
  one (option name value) here following values next after =
      declared name value (lookup name values) following values next after

  -- Parse
  unfoldable pub parse : List String → Values → Parsed
  parse [] values = parsed values []
  parse (a ∷ []) values = one (word a) (a ∷ []) [] values (λ v. parsed v []) (λ v. parsed v [])
  parse (a ∷ b ∷ rest) values =
      let next = parse (b ∷ rest) in
      let after = parse rest in one (word a) (a ∷ b ∷ rest) (b ∷ rest) values next after

-- the value of a flag that was declared as a text
abbrev text_or : Option Value → String
text_or (some (text s)) = s
text_or _ = ""

unfoldable pub text_of : String → Values → String
text_of name values = text_or (lookup name values)

abbrev switch_or : Option Value → Bool
switch_or (some (switch b)) = b
switch_or _ = false

unfoldable pub switch_of : String → Values → Bool
switch_of name values = switch_or (lookup name values)

abbrev duration_or : Option Value → ℤ
duration_or (some (duration d)) = d
duration_or _ = pos 0

unfoldable pub duration_of : String → Values → ℤ
duration_of name values = duration_or (lookup name values)

abbrev pub default_config_path : String
default_config_path = "/etc/praetor/server.yaml"

-- the one flag of a subcommand that has no other
abbrev pub config_flags : Values
config_flags = ("config", text default_config_path) ∷ []
