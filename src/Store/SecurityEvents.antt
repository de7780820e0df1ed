-- ===== src/Store/SecurityEvents.antt =====
-- internal/db/store/securityevents.go: the table security_events.
pub mod Pages
use praetor_server.Prelude.{
  ℕ, ◌+◌, String, Bool, ◌&&◌, Option, none, some, List, [], ◌∷◌, ◌++◌, leb, if◌then◌else◌, ◌==◌,
  string_eq, take,
}
use praetor_server.Result.{Result, ok, err, foreign_key_violation, Conn, exec}
use praetor_server.Sql.{select, order_by}

-- Data is the JSON of the map that the agent sent; `none` is JSON null.
pub record SecurityEvent : Type 0 where
  pub id : ℕ
  pub host_id : String
  pub occurred_at : ℕ
  pub received_at : ℕ
  pub type : String
  pub source : String
  pub content : Option (List (String × String))
  pub raw : String

-- the message of the agent
pub record AgentEvent : Type 0 where
  pub host_id : String
  pub timestamp : Option ℕ
  pub type : String
  pub source : String
  pub content : Option (List (String × String))
  pub raw : String

pub record SecurityEvents : Type 0 where
  pub rows : List SecurityEvent
  pub next_id : ℕ

abbrev occurred : ℕ → Option ℕ → ℕ
occurred now none = now
occurred now (some t) = t

-- the row of the INSERT
abbrev pub event_row : ℕ → ℕ → ℕ → AgentEvent → SecurityEvent
event_row id now clock ev = record {
  id = id;
  host_id = ev.host_id;
  occurred_at = occurred clock ev.timestamp;
  received_at = now;
  type = ev.type;
  source = ev.source;
  content = ev.content;
  raw = ev.raw;
}

-- `clock` is time.Now() of the server.
unfoldable pub insert :
    Conn → (String → Bool) → ℕ → AgentEvent → SecurityEvents → Result (Unit {0}) × SecurityEvents
insert c hosts clock ev t = exec c t (
    if hosts ev.host_id
    then (
      ok tt,
      record { rows = t.rows ++ event_row t.next_id c.now clock ev ∷ []; next_id = t.next_id + 1 },
    )
    else (err foreign_key_violation, record t { next_id = t.next_id + 1 }))

abbrev pub recent : SecurityEvent → SecurityEvent → Bool
recent a b = leb b.occurred_at a.occurred_at

unfoldable pub list : Conn → String → ℕ → ℕ → SecurityEvents → Result (List SecurityEvent)
list c host_id since limit t =
    (exec c t (
      ok (
          take limit (
            order_by recent
              (select (λ r. r.host_id == host_id && leb since r.occurred_at) t.rows))),
      t,
    )).0

unfoldable pub list_all : Conn → ℕ → ℕ → SecurityEvents → Result (List SecurityEvent)
list_all c since limit t =
    (exec c t
      (ok (take limit (order_by recent (select (λ r. leb since r.occurred_at) t.rows))), t)).0
