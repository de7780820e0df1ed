-- ===== src/Cli/Migrate/Arguments.antt =====
-- How the arguments of `migrate` are split into flags and operands.
use praetor_server.Prelude.{
  ℕ, zero, suc, ◌+◌, ◌≤◌, ◌<◌, String, ◌≡◌, refl, ap, sym, ◌∙◌, none, some, List, [], ◌∷◌, ◌++◌,
  drop, length, arith, Bool-cases, inl, inr, append_assoc, append_nil, if◌then◌else◌,
}
use praetor_server.Cli.Migrate.{
  Split, at, is_config, is_flag, add_flags, add_operand, split_loop, split_args,
}

abbrev to_flags : List String → Split → Split
to_flags more p = record p { flag_args = more ++ p.flag_args }

abbrev to_operands : String → Split → Split
to_operands a p = record p { pos_args = a ∷ p.pos_args }

-- The arguments one after the other: `--config` goes to the flags with the argument behind it,
-- another word that begins with a dash goes there alone, and all others are operands.
unfoldable pub partition : List String → Split
partition [] = record { flag_args = []; pos_args = [] }
partition (a ∷ []) =
    if is_config a
    then record { flag_args = a ∷ []; pos_args = [] }
    else if is_flag a
    then record { flag_args = a ∷ []; pos_args = [] }
    else record { flag_args = []; pos_args = a ∷ [] }
partition (a ∷ b ∷ rest) =
    let after = partition rest in
    let next = partition (b ∷ rest) in
    if is_config a
    then to_flags (a ∷ b ∷ []) after
    else if is_flag a
    then to_flags (a ∷ []) next
    else to_operands a next

abbrev join : Split → Split → Split
join s p = record { flag_args = s.flag_args ++ p.flag_args; pos_args = s.pos_args ++ p.pos_args }

abbrev pub empty : Split
empty = record { flag_args = []; pos_args = [] }

drop-nil : (args : List String) (i : ℕ) → drop i args ≡ [] → at args i ≡ none
unfolding at
drop-nil [] i h = refl
drop-nil (a ∷ args) zero h = absurd (ground (arith, h))
drop-nil (a ∷ args) (suc i) h = drop-nil args i h

drop-cons :
    (args : List String) (i : ℕ) (a : String) (rest : List String)
    → drop i args ≡ a ∷ rest
    → (at args i ≡ some a) × (drop (suc i) args ≡ rest) × (i < length args)
unfolding at
drop-cons [] zero a rest h = absurd (ground (arith, h))
drop-cons [] (suc i) a rest h = absurd (ground (arith, h))
drop-cons (b ∷ args) zero a rest h = (ground (arith, h), ground (arith, h), omega arith)
drop-cons (b ∷ args) (suc i) a rest h =
    let (x, y, z) = drop-cons args i a rest h in (x, y, omega (arith, z))

-- after flags, or after an operand
join-flags :
    (s p : Split) (more : List String) → join (add_flags s more) p ≡ join s (to_flags more p)
join-flags s p more =
    ap (λ x. record { flag_args = x; pos_args = s.pos_args ++ p.pos_args })
      (append_assoc s.flag_args more p.flag_args)

join-operand : (s p : Split) (a : String) → join (add_operand s a) p ≡ join s (to_operands a p)
join-operand s p a =
    ap (λ x. record { flag_args = s.flag_args ++ p.flag_args; pos_args = x })
      (append_assoc s.pos_args (a ∷ []) p.pos_args)

join-empty : (s : Split) → join s empty ≡ s
join-empty s =
    ap (λ x. record { flag_args = x; pos_args = s.pos_args ++ [] }) (append_nil s.flag_args)
    ∙ ap (λ x. record { flag_args = s.flag_args; pos_args = x }) (append_nil s.pos_args)

-- The loop at index i, with rounds for all the arguments that are left and one more.
split_loop-partition :
    (rounds : ℕ) (args : List String) (i : ℕ) (s : Split) (rest : List String)
    → drop i args ≡ rest
    → suc (length args) ≤ rounds + i
    → i ≤ length args
    → split_loop rounds args i s ≡ some (join s (partition rest))
unfolding split_loop partition
split_loop-partition zero args i s rest at_i enough inside = absurd (omega (arith, enough, inside))
split_loop-partition (suc rounds) args i s [] at_i enough inside =
    rw (drop-nil args i at_i) (ap some (sym (join-empty s)))
split_loop-partition (suc rounds) args i s (a ∷ []) at_i enough inside =
    let (here, tail, lt) = drop-cons args i a [] at_i in
    let last = drop-nil args (suc i) tail in
    let rec = split_loop-partition rounds args (suc i) in
    elim (Bool-cases (is_config a)) [
      | inl y ↦
          rw (here, last, y)
            (rec (add_flags s (a ∷ [])) [] tail (omega (arith, enough)) (omega (arith, lt))
              ∙ ap some (join-flags s empty (a ∷ [])))
      | inr n ↦ elim (Bool-cases (is_flag a)) [
        | inl y ↦
            rw (here, last, n, y)
              (rec (add_flags s (a ∷ [])) [] tail (omega (arith, enough)) (omega (arith, lt))
                ∙ ap some (join-flags s empty (a ∷ [])))
        | inr m ↦
            rw (here, last, n, m)
              (rec (add_operand s a) [] tail (omega (arith, enough)) (omega (arith, lt))
                ∙ ap some (join-operand s empty a))
      ]
    ]
split_loop-partition (suc rounds) args i s (a ∷ b ∷ rest) at_i enough inside =
    let (here, tail, lt) = drop-cons args i a (b ∷ rest) at_i in
    let (second, tail', lt') = drop-cons args (suc i) b rest tail in
    elim (Bool-cases (is_config a)) [
      | inl y ↦
          rw (here, second, y)
            (split_loop-partition rounds args (suc (suc i)) (add_flags s (a ∷ b ∷ [])) rest tail'
                (omega (arith, enough)) (omega (arith, lt'))
              ∙ ap some (join-flags s (partition rest) (a ∷ b ∷ [])))
      | inr n ↦ elim (Bool-cases (is_flag a)) [
        | inl y ↦
            rw (here, second, n, y)
              (split_loop-partition rounds args (suc i) (add_flags s (a ∷ [])) (b ∷ rest) tail
                  (omega (arith, enough)) (omega (arith, lt))
                ∙ ap some (join-flags s (partition (b ∷ rest)) (a ∷ [])))
        | inr m ↦
            rw (here, second, n, m)
              (split_loop-partition rounds args (suc i) (add_operand s a) (b ∷ rest) tail
                  (omega (arith, enough)) (omega (arith, lt))
                ∙ ap some (join-operand s (partition (b ∷ rest)) a))
      ]
    ]

-- The loop of `migrate` ends after at most one round for each argument and one more, with the
-- arguments sorted into flags and operands.
pub split_args-partition : (args : List String) → split_args args ≡ some (partition args)
unfolding split_args
split_args-partition args =
    split_loop-partition (suc (length args)) args 0 empty args refl (omega arith) (omega arith)
