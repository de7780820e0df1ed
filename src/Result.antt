-- ===== src/Result.antt =====
-- Errors of the stores as values, and what the database answers to one statement.
use praetor_server.Prelude.{ℕ, Bool, if◌then◌else◌, ◌≡◌, refl, ◌⊎◌, inl, inr}

-- `no_rows` is an error for which errors.Is(err, pgx.ErrNoRows) holds; the others are the plain
-- errors: a statement that failed, a constraint of the schema, and the errors of the Go code.
pub data Error : Type 0 where
  no_rows : Error
  unavailable : Error
  unique_violation : Error
  foreign_key_violation : Error
  not_found_or_used : Error
  not_updatable : Error
  out_of_range : Error

pub data Result {ℓ} (A : Type ℓ) : Type ℓ where
  ok : A → Result A
  err : Error → Result A

-- One round trip to Postgres: whether it works at all, and the value of NOW() in it. Instants are
-- counts of nanoseconds.
pub record Conn : Type 0 where
  pub up : Bool
  pub now : ℕ

-- A statement that fails has no effect.
abbrev pub exec {ℓ κ} : {A : Type ℓ} {T : Type κ} → Conn → T → Result A × T → Result A × T
exec c t r = if c.up then r else (err unavailable, t)

pub Result-cases {ℓ} :
    {A : Type ℓ} (r : Result A) → ((e : Error) × (r ≡ err e)) ⊎ ((a : A) × (r ≡ ok a))
Result-cases (err e) = inl (e, refl)
Result-cases (ok a) = inr (a, refl)
