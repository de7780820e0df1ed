-- ===== src/Http.antt =====
-- The requests of the two writers of internal/storage: their base URL, and what they make of the
-- answer. The client of net/http is a parameter.
pub mod Posting
use praetor_server.Text.{trim_right}
use praetor_server.Prelude.{
  ℕ, Bool, true, false, ◌||◌, Option, none, some, List, [], ◌∷◌, ◌++◌, Bytes, nat_beq,
  if◌then◌else◌,
}

-- the base URL that New keeps
abbrev pub base_url : Bytes → Bytes
base_url url = trim_right b'/' url

pub data WriteError : Type 0 where
  marshal_failed build_failed post_failed : WriteError
  unexpected_status : ℕ → WriteError

-- Whether a request for a URL can be built, and the status that its POST gets, if it gets one.
pub record Client : Type 0 where
  pub builds : Bytes → Bool
  pub post : Bytes → Option ℕ

abbrev answered : Option ℕ → Option WriteError
answered none = some post_failed
answered (some status) =
    if nat_beq status 204 || nat_beq status 200 then none else some (unexpected_status status)

-- What Write returns for a request, and the request if it was sent.
unfoldable pub post : {B : Type 0} → Client → Bytes → B → Option WriteError × Option (Bytes × B)
post client url body =
    if client.builds url
    then (answered (client.post url), some (url, body))
    else (some build_failed, none)
