-- ===== src/Loki/Grouping.antt =====
-- What the groups of a batch hold.
use praetor_server.Prelude.{
  append_assoc, append_nil, String, ◌≡◌, refl, ◌∙◌, sym, ap, List, [], ◌∷◌, ◌++◌, Bool-cases,
  eq_iff, ◌==◌, string_eq, inl, inr, if◌then◌else◌,
}
use praetor_server.Dict.{Dict, lookup, insert, lookup-insert}
use praetor_server.Sql.{select}
use praetor_server.Loki.{LogEntry, source_of, add_entry, group_from, by_source, entries_or_none}

-- the entries of a source, in their order
abbrev pub of_source : String → List LogEntry → List LogEntry
of_source src es = select (λ e. source_of e == src) es

lookup-add :
    (k src : String) (e : LogEntry) (m : Dict (List LogEntry))
    → entries_or_none (lookup src (insert k (entries_or_none (lookup k m) ++ e ∷ []) m))
      ≡ entries_or_none (lookup src m) ++ (if k == src then e ∷ [] else [])
lookup-add k src e m =
    let set = lookup-insert k src (entries_or_none (lookup k m) ++ e ∷ []) m in
    elim (Bool-cases (k == src)) [
      | inl y ↦
          let same : k ≡ src = (eq_iff k src).0 y in ap entries_or_none set ∙ rw y (rw same refl)
      | inr n ↦ ap entries_or_none set ∙ rw n (sym (append_nil (entries_or_none (lookup src m))))
    ]

entries-group :
    (src : String) (es : List LogEntry) (m : Dict (List LogEntry))
    → entries_or_none (lookup src (group_from es m))
      ≡ entries_or_none (lookup src m) ++ of_source src es
unfolding group_from select
entries-group src [] m = sym (append_nil (entries_or_none (lookup src m)))
entries-group src (e ∷ es) m =
    entries-group src es (add_entry e m)
    ∙ ap (λ t. t ++ of_source src es) (lookup-add (source_of e) src e m)
    ∙ elim (Bool-cases (source_of e == src)) [
      | inl y ↦ rw y (append_assoc (entries_or_none (lookup src m)) (e ∷ []) (of_source src es))
      | inr n ↦ rw n (append_assoc (entries_or_none (lookup src m)) [] (of_source src es))
    ]

-- The group of a source holds exactly the entries of the batch that have it, in the order of the
-- batch: no entry is lost, doubled or reordered within its stream.
pub by_source_exact :
    (src : String) (es : List LogEntry)
    → entries_or_none (lookup src (by_source es)) ≡ of_source src es
unfolding by_source lookup
by_source_exact src es = entries-group src es []
