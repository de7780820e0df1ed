-- ===== src/Staleness.antt =====
-- internal/staleness/staleness.go: the job that marks silent hosts offline and notifies a webhook.
pub mod Sweep
use praetor_server.Prelude.{
  ℕ, ◌*◌, String, List, [], ◌∷◌, ◌++◌, map, if◌then◌else◌, ◌==◌, string_eq,
}
use praetor_server.Result.{Result, ok, err, Conn}
use praetor_server.Store.Hosts.{Host, Hosts, mark_offline}

-- CheckInterval, in nanoseconds
abbrev pub check_interval : ℕ
check_interval = 30 * 1_000_000_000

-- The host_offline event that is posted.
pub record Notice : Type 0 where
  pub host_id : String
  pub hostname : String

abbrev pub notice : Host → Notice
notice h = record { host_id = h.id; hostname = h.hostname }

-- notifyWebhook posts nothing when no URL is configured; a failed POST is only logged.
notify_webhook : String → Notice → List Notice
notify_webhook url n = if url == "" then [] else n ∷ []

-- the loop over the hosts that the sweep returned
notify_all : String → List Host → List Notice
notify_all url [] = []
notify_all url (h ∷ hosts) = notify_webhook url (notice h) ++ notify_all url hosts

finish : String → Result Hosts × Hosts → Result (List Notice) × Hosts
finish url (ok marked, rows) = (ok (notify_all url marked), rows)
finish url (err e, rows) = (err e, rows)

-- RunOnce returns the notices that it posts and the table that it leaves.
unfoldable pub run_once : Conn → String → Hosts → Result (List Notice) × Hosts
unfolding finish notify_all notify_webhook
run_once c url rows = finish url (mark_offline c rows)

-- What the select of Run sees: a tick of the timer, or the end of its context.
pub data Event : Type 0 where
  tick : Conn → Event
  done : Event

posted : Result (List Notice) → List Notice
posted (ok ns) = ns
posted (err e) = []

-- Run goes on after a failed sweep, and stops when its context is done.
unfoldable pub run : String → List Event → Hosts → List Notice × Hosts
unfolding posted
run url [] rows = ([], rows)
run url (done ∷ events) rows = ([], rows)
run url (tick c ∷ events) rows =
    let (r, rows') = run_once c url rows in
    let (ns, final) = run url events rows' in (posted r ++ ns, final)
