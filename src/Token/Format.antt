-- ===== src/Token/Format.antt =====
-- The documented form of a token, and ParseAndValidate.
use praetor_server.Prelude.{
  ℕ, ◌≡◌, ◌↔◌, refl, true, false, none, List, [], ◌∷◌, ◌++◌, Bytes, All, arith, length, drop, ◌==◌,
  nat_eq, ◌+◌, codes, subst, sym,
}
use praetor_server.Token.{
  split, has_prefix, contains, alphabet, dash, prefix, parse_and_validate, check_parts, check_chars,
}
use praetor_server.Token.Split.{
  Lacks, join, split-append, split_last, join-split, has_prefix-append, append-has_prefix,
}

-- five characters of the alphabet
pub record IsGroup (g : Bytes) : Type 0 where
  pub five : length g ≡ 5
  pub symbols : All (λ c. contains alphabet c ≡ true) g

-- PRAETOR-XXXXX-XXXXX-XXXXX-XXXXX-XXXXX
abbrev pub spelled : Bytes → Bytes → Bytes → Bytes → Bytes → Bytes
spelled a b c d e = prefix ++ (a ++ dash ∷ (b ++ dash ∷ (c ++ dash ∷ (d ++ dash ∷ e))))

pub data IsToken (s : Bytes) : Type 0 where
  token :
      (a b c d e : Bytes)
      → IsGroup a
      → IsGroup b
      → IsGroup c
      → IsGroup d
      → IsGroup e
      → s ≡ spelled a b c d e
      → IsToken s

-- no dash in the alphabet
symbol_not_dash : (c : ℕ) → contains alphabet c ≡ true → (c == dash) ≡ false
unfolding contains
symbol_not_dash c h = ground arith

group-Lacks : (g : Bytes) → All (λ c. contains alphabet c ≡ true) g → Lacks dash g
group-Lacks [] h = tt
group-Lacks (c ∷ g) h = (symbol_not_dash c h.0, group-Lacks g h.1)

check_chars-none :
    (i : ℕ) (g : Bytes) → check_chars i g ≡ none → All (λ c. contains alphabet c ≡ true) g
unfolding check_chars
check_chars-none i [] h = tt
check_chars-none i (c ∷ g) h = ground (arith, check_chars-none i g)

check_chars_ok :
    (i : ℕ) (g : Bytes) → All (λ c. contains alphabet c ≡ true) g → check_chars i g ≡ none
unfolding check_chars
check_chars_ok i [] h = refl
check_chars_ok i (c ∷ g) h = ground (arith, check_chars_ok i g h.1, h.0)

check_parts-none : (i : ℕ) (ps : List Bytes) → check_parts i ps ≡ none → All IsGroup ps
unfolding check_parts
check_parts-none i [] h = tt
check_parts-none i (p ∷ ps) h = ground (arith, check_parts-none (i + 1) ps, check_chars-none i p)

check_parts_ok : (i : ℕ) (ps : List Bytes) → All IsGroup ps → check_parts i ps ≡ none
unfolding check_parts
check_parts_ok i [] h = refl
check_parts_ok i (p ∷ ps) h =
    ground (arith, check_parts_ok (i + 1) ps h.1, check_chars_ok i p h.0.symbols, h.0.five)

-- A text that starts with the prefix is split into PRAETOR and the parts of the rest.
split-prefix : (r : Bytes) → split dash (prefix ++ r) ≡ codes "PRAETOR" ∷ split dash r
unfolding split
split-prefix r = refl

IsToken-of_parts :
    (l : List Bytes) (r : Bytes)
    → length l ≡ 5
    → All IsGroup l
    → join dash l ≡ r
    → IsToken (prefix ++ r)
unfolding join
IsToken-of_parts [] r n g e = absurd (omega arith)
IsToken-of_parts (a ∷ []) r n g e = absurd (omega arith)
IsToken-of_parts (a ∷ b ∷ []) r n g e = absurd (omega arith)
IsToken-of_parts (a ∷ b ∷ c ∷ []) r n g e = absurd (omega arith)
IsToken-of_parts (a ∷ b ∷ c ∷ d ∷ []) r n g e = absurd (omega arith)
IsToken-of_parts (a ∷ b ∷ c ∷ d ∷ x ∷ []) r n g e =
    token a b c d x g.0 g.1.0 g.1.1.0 g.1.1.1.0 g.1.1.1.1.0 (rw (← e))
IsToken-of_parts (a ∷ b ∷ c ∷ d ∷ x ∷ y ∷ l) r n g e = absurd (omega arith)

accepted_rest : (r : Bytes) → parse_and_validate (prefix ++ r) ≡ none → IsToken (prefix ++ r)
unfolding parse_and_validate
accepted_rest r h =
    IsToken-of_parts (split dash r) r (ground (arith, split-prefix r, append-has_prefix prefix r))
      (check_parts-none 0 (split dash r)
        (ground (arith, split-prefix r, append-has_prefix prefix r)))
      (join-split dash r)

accepted_prefix : (s : Bytes) → parse_and_validate s ≡ none → has_prefix s prefix ≡ true
unfolding parse_and_validate
accepted_prefix s h = ground arith

accepted-IsToken : (s : Bytes) → parse_and_validate s ≡ none → IsToken s
accepted-IsToken s h =
    let e : s ≡ prefix ++ drop 8 s = has_prefix-append s prefix (accepted_prefix s h) in
    subst IsToken (sym e) (accepted_rest (drop 8 s) (subst (λ t. parse_and_validate t ≡ none) e h))

module _ (a b c d e : Bytes) (ga : IsGroup a) (gb : IsGroup b) (gc : IsGroup c) (gd : IsGroup d)
    (ge : IsGroup e) where
  split-spelled : split dash (spelled a b c d e) ≡ codes "PRAETOR" ∷ a ∷ b ∷ c ∷ d ∷ e ∷ []
  split-spelled = rw (
    split-prefix (a ++ dash ∷ (b ++ dash ∷ (c ++ dash ∷ (d ++ dash ∷ e)))),
    split-append dash a (b ++ dash ∷ (c ++ dash ∷ (d ++ dash ∷ e))) (group-Lacks a ga.symbols),
    split-append dash b (c ++ dash ∷ (d ++ dash ∷ e)) (group-Lacks b gb.symbols),
    split-append dash c (d ++ dash ∷ e) (group-Lacks c gc.symbols),
    split-append dash d e (group-Lacks d gd.symbols),
    split_last dash e (group-Lacks e ge.symbols),
  )

  pub spelled_accepted : parse_and_validate (spelled a b c d e) ≡ none
  unfolding parse_and_validate
  spelled_accepted =
      rw
        (
          append-has_prefix prefix (a ++ dash ∷ (b ++ dash ∷ (c ++ dash ∷ (d ++ dash ∷ e)))),
          split-spelled,
        )
        (check_parts_ok 0 (a ∷ b ∷ c ∷ d ∷ e ∷ []) (ga, (gb, (gc, (gd, (ge, tt))))))

IsToken-accepted : (s : Bytes) → IsToken s → parse_and_validate s ≡ none
IsToken-accepted s (token a b c d e ga gb gc gd ge p) =
    rw p (spelled_accepted a b c d e ga gb gc gd ge)

-- ParseAndValidate returns no error exactly for PRAETOR- followed by five groups, joined by dashes,
-- of five characters of the alphabet each.
pub accepts_iff : (s : Bytes) → (parse_and_validate s ≡ none) ↔ IsToken s
accepts_iff s = (accepted-IsToken s, IsToken-accepted s)
