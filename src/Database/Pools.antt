-- ===== src/Database/Pools.antt =====
-- The pools that Connect leaves open.
use praetor_server.Prelude.{
  ℕ, suc, String, ◌≡◌, ◌⊎◌, refl, true, arith, Bool-cases, Option-cases, inl, inr,
}
use praetor_server.Database.{
  Pgx, PoolConfig, DbError, pool, no_pool, connect, tuned, parse_error, connect_error, ping_error,
}

-- Connect returns a pool of at most 25 connections to a server that answers, and it is the one pool
-- more that is open then; or it returns an error, and as many pools are open as before.
pub connect_open :
    (p : Pgx) (dsn : String) (n : ℕ)
    → ((cfg : PoolConfig) × (connect p dsn n ≡ (pool cfg, suc n))
        × (cfg.max_conns ≡ 25)
        × (p.ping cfg ≡ true))
      ⊎ ((e : DbError) × (connect p dsn n ≡ (no_pool e, n)))
unfolding connect
connect_open p dsn n = elim (Option-cases (p.parse_config dsn)) [
  | inl bad ↦ inr (parse_error, rw bad refl)
  | inr (cfg, c) ↦ elim (Bool-cases (p.new (tuned cfg))) [
    | inr bad ↦ inr (connect_error, rw (c, bad) refl)
    | inl y ↦ elim (Bool-cases (p.ping (tuned cfg))) [
      | inl answers ↦ inl (tuned cfg, rw (c, y, answers) refl, refl, answers)
      | inr bad ↦ inr (ping_error, ground (arith, c, y, bad))
    ]
  ]
]
