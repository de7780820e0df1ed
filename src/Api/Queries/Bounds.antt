-- ===== src/Api/Queries/Bounds.antt =====
-- The limits of the two listings.
use praetor_server.Prelude.{
  ℕ, zero, suc, ◌≤◌, pos, negsuc, String, ◌≡◌, some, List, [], ◌∷◌, map, arith, Bool-cases,
  Option-cases, Bytes, length, length-map, ◌==◌, string_eq, inl, inr,
}
use praetor_server.Result.{Conn}
use praetor_server.Store.Commands
use praetor_server.Store.Commands.{CommandExecution, later}
use praetor_server.Store.SecurityEvents
use praetor_server.Store.SecurityEvents.Pages.{list-IsPage}
use praetor_server.Store.Commands.Lifecycle.{list_by_host-IsPage}
use praetor_server.Store.SecurityEvents.{SecurityEvent, SecurityEvents}
use praetor_server.Api.{success, limit_of, atoi}
use praetor_server.Api.Commands.{CommandResponse, to_command_response, handle_list_commands}
use praetor_server.Api.Queries.{
  Since, since_of, SecurityEventResponse, to_security_event_response, handle_list_security_events,
}

-- A limit that is accepted is positive and at most the maximum, whatever text the query has.
limit_bounds :
    (default max : ℕ) (s : Bytes) (n : ℕ)
    → 1 ≤ default
    → default ≤ max
    → limit_of default max s ≡ some n
    → (1 ≤ n) × (n ≤ max)
unfolding limit_of
limit_bounds default max [] n lo hi e = (ground (arith, e), ground (arith, e))
limit_bounds default max (c ∷ s) n lo hi e = elim (Option-cases (atoi (c ∷ s))) [
  | inl x ↦ absurd (ground (arith, x, e))
  | inr (pos zero, y) ↦ absurd (ground (arith, y, e))
  | inr (pos (suc k), y) ↦ (ground (arith, y, e), ground (arith, y, e))
  | inr (negsuc k, y) ↦ absurd (ground (arith, y, e))
]

module _ {A B : Type 0} (f : A → B) where
  map-short :
      (out : List A) (resp : List B) (n : ℕ) → length out ≤ n → resp ≡ map f out → length resp ≤ n
  map-short out resp n le e = rw e (omega (arith, length-map f out, le))

-- GET /v1/commands answers a host's commands with at most 100 of them, whatever limit is asked for.
pub list_commands_bound :
    {R : Type 0} (c : Conn) (host_id : String) (limit : Bytes) (rows : List (CommandExecution R))
    (out : List CommandResponse)
    → handle_list_commands c host_id limit rows ≡ success 200 out
    → length out ≤ 100
unfolding handle_list_commands Commands.list_by_host
list_commands_bound c host_id limit rows out e = elim (Bool-cases (host_id == "")) [
  | inl y ↦ absurd (ground (arith, y, e))
  | inr named ↦ elim (Option-cases (limit_of 20 100 limit)) [
    | inl x ↦ absurd (ground (arith, named, x, e))
    | inr (n, y) ↦ elim (Bool-cases c.up) [
      | inr down ↦ absurd (ground (arith, named, y, down, e))
      | inl up ↦
          let (lo, hi) = limit_bounds 20 100 limit n (omega arith) (omega arith) y in
          let (page, found, p) = list_by_host-IsPage c host_id n rows up in
          map-short to_command_response page out 100 (omega (arith, hi, p.short))
            (ground (arith, named, y, found, e))
    ]
  ]
]

-- GET /v1/security-events answers at most 1000 events, of one host or of all, whatever limit and
-- start are asked for.
pub list_events_bound :
    (c : Conn) (host_id : String) (now : ℕ) (since : Since) (limit : Bytes) (t : SecurityEvents)
    (out : List SecurityEventResponse)
    → handle_list_security_events c host_id now since limit t ≡ success 200 out
    → length out ≤ 1_000
unfolding handle_list_security_events SecurityEvents.list SecurityEvents.list_all
list_events_bound c host_id now since limit t out e = elim (Option-cases (since_of now since)) [
  | inl x ↦ absurd (ground (arith, x, e))
  | inr (from, y) ↦ elim (Option-cases (limit_of 100 1_000 limit)) [
    | inl x ↦ absurd (ground (arith, y, x, e))
    | inr (n, z) ↦
        let (lo, hi) = limit_bounds 100 1_000 limit n (omega arith) (omega arith) z in
        elim (Bool-cases c.up) [
          | inr down ↦ absurd (ground (arith, y, z, down, e, Bool-cases (host_id == "")))
          | inl up ↦
              let ((one, e1, p1), (all, e2, p2)) = list-IsPage c host_id from n t up in
              elim (Bool-cases (host_id == "")) [
                | inl every ↦
                    map-short to_security_event_response all out 1_000 (omega (arith, hi, p2.short))
                      (ground (arith, every, y, z, e2, e))
                | inr named ↦
                    map-short to_security_event_response one out 1_000 (omega (arith, hi, p1.short))
                      (ground (arith, named, y, z, e1, e))
              ]
        ]
  ]
]
