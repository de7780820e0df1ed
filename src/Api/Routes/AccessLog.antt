-- ===== src/Api/Routes/AccessLog.antt =====
-- internal/api/middleware.go: the access log.
use praetor_server.Prelude.{
  ℕ, String, Bool, false, ◌&&◌, Option, none, some, List, ◌∷◌, if◌then◌else◌, ◌==◌, string_eq,
}
use praetor_server.Api.{failure, success, status_of}
use praetor_server.Api.Routes.{
  Request, Answer, redirected, not_found, method_not_allowed, replied, is_clean,
}

-- requestLogger: one line for a request that gets behind /v1/, with the status that was written.
pub record AccessLine : Type 0 where
  pub method : String
  pub path : List String
  pub status : ℕ

abbrev written : Answer → ℕ
written redirected = 301
written not_found = 404
written method_not_allowed = 405
written (replied (failure e)) = status_of e
written (replied (success status b)) = status

abbrev line_of : Request → Answer → AccessLine
line_of r a = record { method = r.method; path = r.path; status = written a }

abbrev is_v1 : List String → Bool
is_v1 (name ∷ next ∷ rest) = name == "v1"
is_v1 _ = false

unfoldable pub request_logger : Request → Answer → Option AccessLine
request_logger r a = if is_clean r.path && is_v1 r.path then some (line_of r a) else none
