-- ===== src/Stream.antt =====
-- internal/stream: the registry of connected agents, and the Connect handler.
pub mod Registry
pub mod Handler
