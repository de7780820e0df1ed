-- ===== src/Store/SecurityEvents/Pages.antt =====
-- What List and ListAll return.
use praetor_server.Prelude.{
  ℕ, String, ◌≡◌, refl, Bool, true, false, List, arith, ◌==◌, string_eq, ◌&&◌, leb, take,
}
use praetor_server.Result.{ok, Conn}
use praetor_server.Sql.{select, order_by, IsPage, take-IsPage}
use praetor_server.Store.SecurityEvents.{SecurityEvent, SecurityEvents, list, list_all, recent}

recent_total : (a b : SecurityEvent) → recent a b ≡ false → recent b a ≡ true
recent_total a b h = ground arith

recent_trans : (a b d : SecurityEvent) → recent a b ≡ true → recent b d ≡ true → recent a d ≡ true
recent_trans a b d h k = ground arith

-- the WHERE clause of List
abbrev pub of_host : String → ℕ → SecurityEvent → Bool
of_host host_id since r = r.host_id == host_id && leb since r.occurred_at

-- While the database answers, List returns a page of the events of the host since the time given,
-- and ListAll one of the events of all hosts, the latest first: at most `limit` events, and one that
-- is left out is not later than any of a full page.
pub list-IsPage :
    (c : Conn) (host_id : String) (since limit : ℕ) (t : SecurityEvents)
    → c.up ≡ true
    → ((out : List SecurityEvent) × (list c host_id since limit t ≡ ok out)
        × IsPage recent (of_host host_id since) limit t.rows out)
      × ((out : List SecurityEvent) × (list_all c since limit t ≡ ok out)
          × IsPage recent (λ r. leb since r.occurred_at) limit t.rows out)
unfolding list list_all
list-IsPage c host_id since limit t up = (
  (
    take limit (order_by recent (select (of_host host_id since) t.rows)),
    rw up refl,
    take-IsPage recent recent_total recent_trans (of_host host_id since) limit t.rows,
  ),
  (
    take limit (order_by recent (select (λ r. leb since r.occurred_at) t.rows)),
    rw up refl,
    take-IsPage recent recent_total recent_trans (λ r. leb since r.occurred_at) limit t.rows,
  ),
)
