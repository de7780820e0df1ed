-- ===== src/Authority/Serial.antt =====
-- randomSerial of internal/ca/ca.go: the serial number of a certificate, from 16 random bytes.
use mathlib.Core.Option.{some}
use mathlib.Core.Option
use native.Mathlib.Nat.{mul-le-mul_right, pow-suc, mul_assoc, mul_comm}
use praetor_server.Prelude.{
  ℕ, ◌+◌, ◌*◌, ◌^◌, ◌<◌, ◌≡◌, refl, ap, Option, [], ◌∷◌, Bytes, All, length, arith, subst, ◌∙◌, sym,
  Option-cases, inl, inr,
}

-- (*big.Int).SetBytes: the bytes as an unsigned number, the first byte counting most
unfoldable pub set_bytes : ℕ → Bytes → ℕ
set_bytes acc [] = acc
set_bytes acc (b ∷ bs) = set_bytes (acc * 256 + b) bs

-- A random source: what rand.Read fills a buffer of the given length with, `none` for its error.
abbrev pub Source : Type 0
Source = ℕ → Option Bytes

unfoldable pub random_serial : Source → Option ℕ
random_serial read = Option.map (set_bytes 0) (read 16)

abbrev AreBytes : Bytes → Type 0
AreBytes = All (λ b. b < 256)

-- What rand.Read promises: it fills the whole buffer.
abbrev pub IsFilling : Source → Type 0
IsFilling read = (n : ℕ) (bs : Bytes) → read n ≡ some bs → (length bs ≡ n) × All (λ b. b < 256) bs

set_bytes-injective :
    (xs ys : Bytes) (a b : ℕ)
    → AreBytes xs
    → AreBytes ys
    → length xs ≡ length ys
    → set_bytes a xs ≡ set_bytes b ys
    → (a ≡ b) × (xs ≡ ys)
unfolding set_bytes
set_bytes-injective [] [] a b p q n e = (e, refl)
set_bytes-injective [] (y ∷ ys) a b p q n e = absurd (ground (arith, n))
set_bytes-injective (x ∷ xs) [] a b p q n e = absurd (ground (arith, n))
set_bytes-injective (x ∷ xs) (y ∷ ys) a b (p, ps) (q, qs) n e =
    let (s, t) = set_bytes-injective xs ys (a * 256 + x) (b * 256 + y) ps qs (omega (arith, n)) e in
    let same : a ≡ b = omega (arith, s, p, q) in
    let byte : x ≡ y = omega (arith, s, p, q) in (same, cc (byte, t))

set_bytes-bound : (xs : Bytes) (a : ℕ) → AreBytes xs → set_bytes a xs < (a + 1) * 256 ^ length xs
unfolding set_bytes
set_bytes-bound [] a p = omega arith
set_bytes-bound (x ∷ xs) a (p, ps) =
    let rest = set_bytes-bound xs (a * 256 + x) ps in
    let grown =
      mul-le-mul_right {m = a * 256 + x + 1} {n = (a + 1) * 256} (256 ^ length xs)
        (omega (arith, p)) in
    let split = pow-suc 256 (length xs) in
    let assoc = mul_assoc (a + 1) (256 ^ length xs) 256 in
    let swap = mul_assoc (a + 1) 256 (256 ^ length xs) in
    let comm = ap (λ n. (a + 1) * n) (mul_comm (256 ^ length xs) 256) in
    rw split (omega (arith, rest, grown, comm, swap))

-- the bytes behind a serial number
drawn_bytes :
    (read : Source) (n : ℕ)
    → random_serial read ≡ some n
    → (bs : Bytes) × (read 16 ≡ some bs) × (set_bytes 0 bs ≡ n)
unfolding random_serial
drawn_bytes read n h = elim (Option-cases (read 16)) [
  | inl e ↦ absurd (ground (arith, e, h))
  | inr (bs, e) ↦ (bs, e, ground (arith, e, h))
]

module _ (read : Source) (n : ℕ) (h : random_serial read ≡ some n) (filling : IsFilling read) where
  pub random_serial-bound : n < 2 ^ 128
  random_serial-bound =
      let (bs, e, v) = drawn_bytes read n h in
      let (l, p) = filling 16 bs e in
      let bound : set_bytes 0 bs < 1 * 256 ^ 16 =
        subst (λ m. set_bytes 0 bs < 1 * 256 ^ m) l (set_bytes-bound bs 0 p) in
      omega (arith, bound, v)

  pub random_serial-injective :
      (read' : Source) → IsFilling read' → random_serial read' ≡ some n → read 16 ≡ read' 16
  random_serial-injective read' filling' h' =
      let (bs, e, v) = drawn_bytes read n h in
      let (bs', e', v') = drawn_bytes read' n h' in
      let (l, p) = filling 16 bs e in
      let (l', p') = filling' 16 bs' e' in
      e ∙ (ap some (set_bytes-injective bs bs' 0 0 p p' (l ∙ sym l') (v ∙ sym v')).1 ∙ sym e')
