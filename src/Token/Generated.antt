-- ===== src/Token/Generated.antt =====
-- The tokens that Generate makes.
use praetor_server.Prelude.{
  zero, suc, ◌+◌, ◌-◌, ◌*◌, ◌≤◌, ℕ, String, ◌≡◌, refl, true, none, some, [], ◌∷◌, ◌++◌, Bytes, All,
  arith, length, take, drop,
}
use praetor_server.Token.{
  Token, contains, alphabet, symbols, base32_encode, slice, format, generate, parse_and_validate,
  word,
}
use praetor_server.Token.Base32.{symbol_in_alphabet}
use praetor_server.Token.Format.{IsGroup, spelled_accepted}

abbrev Symbols : Bytes → Type 0
Symbols = All (λ c. contains alphabet c ≡ true)

take-Symbols : (n : ℕ) (s : Bytes) → Symbols s → Symbols (take n s)
take-Symbols zero s h = tt
take-Symbols (suc n) [] h = tt
take-Symbols (suc n) (c ∷ s) h = (h.0, take-Symbols n s h.1)

drop-Symbols : (n : ℕ) (s : Bytes) → Symbols s → Symbols (drop n s)
drop-Symbols zero s h = h
drop-Symbols (suc n) [] h = tt
drop-Symbols (suc n) (c ∷ s) h = drop-Symbols n s h.1

length-take : (n : ℕ) (s : Bytes) → n ≤ length s → length (take n s) ≡ n
length-take zero s h = refl
length-take (suc n) [] h = absurd (omega arith)
length-take (suc n) (c ∷ s) h = omega (arith, length-take n s)

length-drop : (n : ℕ) (s : Bytes) → length (drop n s) ≡ length s - n
length-drop zero s = omega arith
length-drop (suc n) [] = omega arith
length-drop (suc n) (c ∷ s) = omega (arith, length-drop n s)

symbols-Symbols : (v : ℕ) (rest : Bytes) → Symbols rest → Symbols (symbols v ++ rest)
unfolding symbols
symbols-Symbols v rest h = (
  symbol_in_alphabet v 7,
  (
    symbol_in_alphabet v 6,
    (
      symbol_in_alphabet v 5,
      (
        symbol_in_alphabet v 4,
        (
          symbol_in_alphabet v 3,
          (symbol_in_alphabet v 2, (symbol_in_alphabet v 1, (symbol_in_alphabet v 0, h))),
        ),
      ),
    ),
  ),
)

encode-Symbols : (b : Bytes) → Symbols (base32_encode b)
unfolding base32_encode
encode-Symbols (a ∷ b ∷ c ∷ d ∷ e ∷ rest) =
    symbols-Symbols (word a b c d e) (base32_encode rest) (encode-Symbols rest)
encode-Symbols _ = tt

length-base32_encode : (b : Bytes) (k : ℕ) → length b ≡ 5 * k → length (base32_encode b) ≡ 8 * k
unfolding base32_encode
length-base32_encode (a ∷ b ∷ c ∷ d ∷ e ∷ rest) k h =
    omega (arith, length-base32_encode rest (k - 1) (omega arith))
length-base32_encode [] k h = omega arith
length-base32_encode _ k h = absurd (omega arith)

slice-IsGroup : (from : ℕ) (s : Bytes) → from + 5 ≤ length s → Symbols s → IsGroup (slice from 5 s)
slice-IsGroup from s h y = record {
  five = length-take 5 (drop from s) (omega (arith, length-drop from s));
  symbols = take-Symbols 5 (drop from s) (drop-Symbols from s y);
}

module _ (chars : Bytes) (n : 25 ≤ length chars) (y : Symbols chars) where
  format_accepted : parse_and_validate (format chars) ≡ none
  unfolding format
  format_accepted =
      spelled_accepted (slice 0 5 chars) (slice 5 5 chars) (slice 10 5 chars) (slice 15 5 chars)
        (slice 20 5 chars) (slice-IsGroup 0 chars (omega arith) y)
        (slice-IsGroup 5 chars (omega arith) y) (slice-IsGroup 10 chars (omega arith) y)
        (slice-IsGroup 15 chars (omega arith) y) (slice-IsGroup 20 chars (omega arith) y)

-- From any 25 random bytes Generate makes a token whose plain text ParseAndValidate accepts, and
-- whose stored hash is the hash of that text; it fails only if the random source does.
pub generate_accepted :
    (hash : Bytes → String) (b : Bytes) (id : String)
    → length b ≡ 25
    → (t : Token) × (generate hash (some b) id ≡ some t)
      × (parse_and_validate t.plain ≡ none)
      × (t.hash ≡ hash t.plain)
      × (t.id ≡ id)
unfolding generate
generate_accepted hash b id n = (
  record { id = id; plain = format chars; hash = hash (format chars) },
  refl,
  format_accepted chars
      (omega (arith, length-take 25 (base32_encode b) (omega (arith, length-base32_encode b 5 n))))
      (take-Symbols 25 (base32_encode b) (encode-Symbols b)),
  refl,
  refl,
)
  where
    chars : Bytes
    chars = take 25 (base32_encode b)
