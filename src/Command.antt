-- ===== src/Command.antt =====
-- internal/command: the rate limit, and the broker that issues commands.
pub mod RateLimit
pub mod Broker
