-- ===== src/Stream/Registry.antt =====
-- internal/stream/registry.go: the active streams by host. A stream is known by its number, as the
-- map holds a pointer to it; the mutex makes each call one step.
pub mod Sessions
use praetor_server.Prelude.{ℕ, String, Option, length}
use praetor_server.Dict.{Dict, lookup, insert, delete}

abbrev pub Registry : Type 0
Registry = Dict ℕ

unfoldable pub add : String → ℕ → Registry → Registry
add host_id s r = insert host_id s r

unfoldable pub remove : String → Registry → Registry
remove host_id r = delete host_id r

-- Get, and GetSender, which the broker's adapter calls
unfoldable pub get : String → Registry → Option ℕ
get host_id r = lookup host_id r

unfoldable pub count : Registry → ℕ
count r = length r
