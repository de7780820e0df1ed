-- ===== src/Token.antt =====
-- internal/token/token.go: enrollment tokens. A Go string is the list of its bytes.
pub mod Split
pub mod Format
pub mod Generated
pub mod Base32
use praetor_server.Prelude.{
  ℕ, zero, suc, ◌+◌, ◌*◌, ◌/◌, ◌%◌, ◌^◌, String, Bool, true, false, Option, none, some, List, [],
  ◌∷◌, ◌++◌, Bytes, codes, length, take, drop, if◌then◌else◌, ◌==◌, nat_eq,
}

-- Crockford base32 (no I, L, O, U).
abbrev pub alphabet : Bytes
alphabet = codes "0123456789ABCDEFGHJKMNPQRSTVWXYZ"

-- `-`
abbrev pub dash : ℕ
dash = b'-'

abbrev pub prefix : Bytes
prefix = codes "PRAETOR-"

-- strings.ContainsRune over an ASCII text: a byte that is not ASCII is never found, nor is the rune
-- that it belongs to.
unfoldable pub contains : Bytes → ℕ → Bool
contains [] c = false
contains (a ∷ s) c = let rest = contains s c in if a == c then true else rest

-- strings.HasPrefix(s, p)
unfoldable pub has_prefix : Bytes → Bytes → Bool
has_prefix s [] = true
has_prefix [] (a ∷ p) = false
has_prefix (c ∷ s) (a ∷ p) = let rest = has_prefix s p in if c == a then rest else false

abbrev pub push : ℕ → List Bytes → List Bytes
push c [] = (c ∷ []) ∷ []
push c (p ∷ ps) = (c ∷ p) ∷ ps

-- strings.Split(s, sep) for a separator of one byte
unfoldable pub split : ℕ → Bytes → List Bytes
split sep [] = [] ∷ []
split sep (c ∷ s) = let rest = split sep s in if c == sep then [] ∷ rest else push c rest

-- The errors of ParseAndValidate; the numbers are those of its messages.
pub data TokenError : Type 0 where
  bad_prefix : TokenError
  bad_parts : ℕ → TokenError
  bad_length : ℕ → ℕ → TokenError
  bad_character : ℕ → TokenError

-- the loop over the characters of part i + 1
check_chars : ℕ → Bytes → Option TokenError
check_chars i [] = none
check_chars i (c ∷ p) =
    let rest = check_chars i p in if contains alphabet c then rest else some (bad_character (i + 1))

abbrev or_else : Option TokenError → Option TokenError → Option TokenError
or_else none r = r
or_else (some e) r = some e

-- the loop over parts[1:], at index i
check_parts : ℕ → List Bytes → Option TokenError
check_parts i [] = none
check_parts i (p ∷ ps) =
    let rest = check_parts (i + 1) ps in
    if length p == 5 then or_else (check_chars i p) rest else some (bad_length (i + 1) (length p))

unfoldable pub parse_and_validate : Bytes → Option TokenError
unfolding check_parts check_chars
parse_and_validate s =
    if has_prefix s prefix
    then (let parts = split dash s in
        if length parts == 6 then check_parts 0 (drop 1 parts) else some (bad_parts (length parts)))
    else some bad_prefix

-- alphabet[i] for i below 32
abbrev pub char_at : Bytes → ℕ → ℕ
char_at [] i = 0
char_at (c ∷ s) zero = c
char_at (c ∷ s) (suc i) = char_at s i

-- `uint64(b[i])<<32 | … | uint64(b[i+4])`: the five bytes do not overlap, so `|` is a sum.
abbrev pub word : ℕ → ℕ → ℕ → ℕ → ℕ → ℕ
word a b c d e = a * 2 ^ 32 + b * 2 ^ 24 + c * 2 ^ 16 + d * 2 ^ 8 + e

-- `(v >> (j*5)) & 0x1F`
abbrev pub digit : ℕ → ℕ → ℕ
digit v j = v / 2 ^ (j * 5) % 32

pub symbol : ℕ → ℕ → ℕ
symbol v j = char_at alphabet (digit v j)

-- the loop for j from 7 down to 0
symbols : ℕ → Bytes
symbols v =
    symbol v 7
    ∷ symbol v 6
    ∷ symbol v 5
    ∷ symbol v 4
    ∷ symbol v 3
    ∷ symbol v 2
    ∷ symbol v 1
    ∷ symbol v 0
    ∷ []

-- the loop over i: five bytes a round, and a rest of fewer than five is dropped
unfoldable pub base32_encode : Bytes → Bytes
unfolding symbols symbol
base32_encode (a ∷ b ∷ c ∷ d ∷ e ∷ rest) = symbols (word a b c d e) ++ base32_encode rest
base32_encode _ = []

-- s[from:to]
abbrev pub slice : ℕ → ℕ → Bytes → Bytes
slice from len s = take len (drop from s)

-- the Sprintf of Generate over the first 25 characters
unfoldable pub format : Bytes → Bytes
format chars =
    prefix
    ++ (slice 0 5 chars
        ++ dash
          ∷ (slice 5 5 chars
              ++ dash ∷ (slice 10 5 chars ++ dash ∷ (slice 15 5 chars ++ dash ∷ slice 20 5 chars))))

pub record Token : Type 0 where
  pub id : String
  pub plain : Bytes
  pub hash : String

-- `hash` stands for the lower-case hex of SHA-256, `random` for the 25 bytes that crypto/rand read,
-- or its failure, and `id` for the ULID.
module _ (hash : Bytes → String) where
  unfoldable pub generate : Option Bytes → String → Option Token
  unfolding format
  generate none id = none
  generate (some b) id =
      let plain = format (take 25 (base32_encode b)) in
      some (record { id = id; plain = plain; hash = hash plain })
