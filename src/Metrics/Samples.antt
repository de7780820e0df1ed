-- ===== src/Metrics/Samples.antt =====
-- The names and the labels of the samples.
use praetor_server.Prelude.{
  ℕ, String, ◌≡◌, ◌≢◌, refl, subst, some, List, [], ◌∷◌, map, arith, Bool-cases, Bytes, codes,
  length, ◌<◌, length-map, nat_beq, inl, inr, All,
}
use praetor_server.Metrics.{replace_all, Metric, Sample, sample_of, label_of, write}

-- a byte that a text does not hold
abbrev pub Lacks : ℕ → Bytes → Type 0
Lacks c s = All (λ x. x ≢ c) s

replace_all-Lacks : (old new : ℕ) → new ≢ old → (s : Bytes) → Lacks old (replace_all old new s)
unfolding replace_all
replace_all-Lacks old new ne [] = tt
replace_all-Lacks old new ne (c ∷ s) = elim (Bool-cases (nat_beq c old)) [
  | inl y ↦ rw y (ne, replace_all-Lacks old new ne s)
  | inr n ↦ rw n ((λ e. ground (arith, n, e)), replace_all-Lacks old new ne s)
]

replace_all-keeps :
    (old new c : ℕ) → new ≢ c → (s : Bytes) → Lacks c s → Lacks c (replace_all old new s)
unfolding replace_all
replace_all-keeps old new c ne [] h = tt
replace_all-keeps old new c ne (x ∷ s) h = elim (Bool-cases (nat_beq x old)) [
  | inl y ↦ rw y (ne, replace_all-keeps old new c ne s h.1)
  | inr n ↦ rw n (h.0, replace_all-keeps old new c ne s h.1)
]

-- What a sample promises: names without the bytes that the format refuses, and the host's label first.
pub record IsClean {V : Type 0} (host_id : String) (s : Sample V) : Type 0 where
  pub name : Lacks b'.' s.name
  pub host : (rest : List (Bytes × String)) × (s.labels ≡ (codes "host_id", host_id) ∷ rest)
  pub labels : All (λ l. Lacks b'.' l.0 × Lacks b'-' l.0) s.labels

label_clean : (l : Bytes × String) → Lacks b'.' (label_of l).0 × Lacks b'-' (label_of l).0
label_clean (key, value) = (
  replace_all-keeps b'-' b'_' b'.' (λ e. omega (arith, e)) (replace_all b'.' b'_' key)
      (replace_all-Lacks b'.' b'_' (λ e. omega (arith, e)) key),
  replace_all-Lacks b'-' b'_' (λ e. omega (arith, e)) (replace_all b'.' b'_' key),
)

labels-clean :
    (ls : List (Bytes × String)) → All (λ l. Lacks b'.' l.0 × Lacks b'-' l.0) (map label_of ls)
labels-clean [] = tt
labels-clean (l ∷ ls) = (label_clean l, labels-clean ls)

host-Lacks : (c : ℕ) → c < 95 → Lacks c (codes "host_id")
host-Lacks c h = (
  (λ e. omega (arith, e)),
  (
    (λ e. omega (arith, e)),
    (
      (λ e. omega (arith, e)),
      (
        (λ e. omega (arith, e)),
        ((λ e. omega (arith, e)), ((λ e. omega (arith, e)), ((λ e. omega (arith, e)), tt))),
      ),
    ),
  ),
)

host_label_clean : Lacks b'.' (codes "host_id") × Lacks b'-' (codes "host_id")
host_label_clean = (host-Lacks b'.' (omega arith), host-Lacks b'-' (omega arith))

module _ {V : Type 0} (now : ℕ) (host_id : String) where
  sample-IsClean : (m : Metric V) → IsClean host_id (sample_of now host_id m)
  sample-IsClean m = record {
    name = replace_all-Lacks b'.' b'_' (λ e. omega (arith, e)) m.name;
    host = (map label_of m.labels, refl);
    labels = (host_label_clean, labels-clean m.labels);
  }

  samples-IsClean : (ms : List (Metric V)) → All (IsClean host_id) (map (sample_of now host_id) ms)
  samples-IsClean [] = tt
  samples-IsClean (m ∷ ms) = (sample-IsClean m, samples-IsClean ms)

  -- What Write posts has one sample for each metric of the batch; the first label of each is the host
  -- id of the stream, and no name has a dot, nor a label's name a dash.
  pub write-IsClean :
      (ms : List (Metric V)) (out : List (Sample V))
      → write now host_id ms ≡ some out
      → (length out ≡ length ms) × All (IsClean host_id) out
  unfolding write
  write-IsClean [] out e = absurd (ground (arith, e))
  write-IsClean (m ∷ ms) out e =
      let same : map (sample_of now host_id) (m ∷ ms) ≡ out = ground (arith, e) in
      subst (λ o. (length o ≡ length (m ∷ ms)) × All (IsClean host_id) o) same
        (length-map (sample_of now host_id) (m ∷ ms), samples-IsClean (m ∷ ms))
