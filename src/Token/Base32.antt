-- ===== src/Token/Base32.antt =====
-- Reading base32 back: five bytes from their eight characters.
use mathlib.Core.Path.{ap₂}
use praetor_server.Prelude.{
  ap, ◌∙◌, zero, suc, if◌then◌else◌, ℕ, ◌+◌, ◌*◌, ◌/◌, ◌%◌, ◌^◌, ◌<◌, ◌≡◌, refl, Bool, true, [],
  ◌∷◌, ◌++◌, Bytes, arith, ◌==◌, nat_eq, suc, nat_beq_iff, false,
}
use praetor_server.Token.{contains, alphabet, word, digit, symbol, symbols, base32_encode, char_at}

-- the value of a character of the alphabet: its place in the list
position : Bytes → ℕ → ℕ
position [] c = 0
position (a ∷ s) c = let rest = suc (position s c) in if a == c then 0 else rest

value_of : ℕ → ℕ
unfolding position
value_of = position alphabet

-- eight characters spell a number, and the number five bytes
unpack : ℕ → Bytes
unpack v = v / 2 ^ 32 % 256 ∷ v / 2 ^ 24 % 256 ∷ v / 2 ^ 16 % 256 ∷ v / 2 ^ 8 % 256 ∷ v % 256 ∷ []

pub decode : Bytes → Bytes
decode (s ∷ t ∷ u ∷ v ∷ w ∷ x ∷ y ∷ z ∷ rest) =
    unpack (
      value_of s * 2 ^ 35
      + value_of t * 2 ^ 30
      + value_of u * 2 ^ 25
      + value_of v * 2 ^ 20
      + value_of w * 2 ^ 15
      + value_of x * 2 ^ 10
      + value_of y * 2 ^ 5
      + value_of z)
    ++ decode rest
decode _ = []

-- Each of the numbers under a bound passes a test: what the two tables evaluate.
each_under : (ℕ → Bool) → ℕ → Bool
each_under test zero = true
each_under test (suc bound) = if test bound then each_under test bound else false

each_under-at :
    (test : ℕ → Bool) (bound i : ℕ) → i < bound → each_under test bound ≡ true → test i ≡ true
unfolding each_under
each_under-at test zero i under y = absurd (omega arith)
each_under-at test (suc bound) i under y = ground (arith, each_under-at test bound i)

value_table : each_under (λ i. value_of (char_at alphabet i) == i) 32 ≡ true
unfolding each_under value_of
value_table = refl

symbol_table : each_under (λ i. contains alphabet (char_at alphabet i)) 32 ≡ true
unfolding each_under contains
symbol_table = refl

value-char_at : (i : ℕ) → i < 32 → value_of (char_at alphabet i) ≡ i
value-char_at i h =
    (nat_beq_iff _ i).0 (each_under-at (λ j. value_of (char_at alphabet j) == j) 32 i h value_table)

pub symbol_in_alphabet : (v j : ℕ) → contains alphabet (symbol v j) ≡ true
unfolding symbol
symbol_in_alphabet v j =
    each_under-at (λ i. contains alphabet (char_at alphabet i)) 32 (digit v j) (omega arith)
      symbol_table

value-symbol : (v j : ℕ) → value_of (symbol v j) ≡ digit v j
unfolding symbol
value-symbol v j = value-char_at (digit v j) (omega arith)

digits_sum :
    (v : ℕ)
    → v < 2 ^ 40
    → digit v 7 * 2 ^ 35
        + digit v 6 * 2 ^ 30
        + digit v 5 * 2 ^ 25
        + digit v 4 * 2 ^ 20
        + digit v 3 * 2 ^ 15
        + digit v 2 * 2 ^ 10
        + digit v 1 * 2 ^ 5
        + digit v 0
      ≡ v
digits_sum v h = omega arith

unpack-word :
    (a b c d e : ℕ)
    → a < 256
    → b < 256
    → c < 256
    → d < 256
    → e < 256
    → unpack (word a b c d e) ≡ a ∷ b ∷ c ∷ d ∷ e ∷ []
unfolding unpack
unpack-word a b c d e ha hb hc hd he = ground arith

-- Decoding gives back every byte that was encoded, for bytes in whole groups of five.
pub data IsGrouped : Bytes → Type 0 where
  done : IsGrouped []
  five :
      (a b c d e : ℕ) {rest : Bytes}
      → a < 256
      → b < 256
      → c < 256
      → d < 256
      → e < 256
      → IsGrouped rest
      → IsGrouped (a ∷ b ∷ c ∷ d ∷ e ∷ rest)

decode-symbols :
    (v : ℕ) (rest : Bytes) → v < 2 ^ 40 → decode (symbols v ++ rest) ≡ unpack v ++ decode rest
unfolding decode symbols
decode-symbols v rest h =
    ap (λ n. unpack n ++ decode rest)
      (rw
        (
          value-symbol v 7,
          value-symbol v 6,
          value-symbol v 5,
          value-symbol v 4,
          value-symbol v 3,
          value-symbol v 2,
          value-symbol v 1,
          value-symbol v 0,
        )
        (digits_sum v h))

word-lt :
    (a b c d e : ℕ) → a < 256 → b < 256 → c < 256 → d < 256 → e < 256 → word a b c d e < 2 ^ 40
word-lt a b c d e ha hb hc hd he = omega arith

-- Decoding the base32 text of whole groups of five bytes gives the bytes back.
pub decode-base32_encode : (b : Bytes) → IsGrouped b → decode (base32_encode b) ≡ b
unfolding decode base32_encode
decode-base32_encode [] done = refl
decode-base32_encode _ (five a b c d e {rest} ha hb hc hd he g) =
    decode-symbols (word a b c d e) (base32_encode rest) (word-lt a b c d e ha hb hc hd he)
    ∙ ap₂ (λ s t. s ++ t) (unpack-word a b c d e ha hb hc hd he) (decode-base32_encode rest g)
