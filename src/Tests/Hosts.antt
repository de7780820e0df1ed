-- ===== src/Tests/Hosts.antt =====
-- Runs of the host store and of the staleness job.
use praetor_server.Prelude.{◌≡◌, ◌↔◌, refl, some, List, [], ◌∷◌, In, inl, string_eq}
use praetor_server.Result.{ok, Conn}
use praetor_server.Sql.{update_where}
use praetor_server.Store.Hosts.{Host, Hosts, update_heartbeat}
use praetor_server.Store.Hosts.Keys.{Op, upserts, beats, sweeps, run, HasKeys, run-HasKeys}
use praetor_server.Staleness.{Notice, notice, run_once}
use praetor_server.Staleness.Sweep.{IsSilent, IsSwept, run_once_exact}
use praetor_server.Tests.Data.{up_at, a_host}

abbrev writes : List (Conn × Op)
writes = (up_at 1, upserts a_host) ∷ (up_at 2, beats "h1" 2 "online") ∷ (up_at 3, sweeps) ∷ []

run-HasKeys_example : HasKeys (run writes [])
run-HasKeys_example = run-HasKeys writes

abbrev hosts : Hosts
hosts = a_host ∷ []

run_once_exact_example :
    (ns : List Notice) × ((run_once (up_at 200_000_000_000) "http://alerts" hosts).0 ≡ ok ns)
    × IsSwept 200_000_000_000 hosts (run_once (up_at 200_000_000_000) "http://alerts" hosts).1
    × ((n : Notice)
        → In n ns ↔ ((h : Host) × In h hosts × IsSilent 200_000_000_000 h × (n ≡ notice h)))
run_once_exact_example = run_once_exact (up_at 200_000_000_000) "http://alerts" hosts refl refl

abbrev beaten : Host
beaten = record a_host { last_heartbeat_at = some 8 }

there : In beaten (update_heartbeat (up_at 9) "h1" 8 "online" hosts).1
unfolding update_heartbeat update_where
there = inl refl
