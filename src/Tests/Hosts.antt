-- ===== src/Tests/Hosts.antt =====
-- internal/server/storage/hosts.go: witnesses and tests.
use theminidog.Base.{
  ◌≡◌, refl, ◌≢◌, some, List, [], ◌∷◌, String, seconds, ◌-ℤ◌, arith, lookup, insert, delete, sub,
  str_eq_iff,
}
use theminidog.Storage.Hosts.{
  HostTracker, ok, stale, down, new_host_tracker, heartbeat, classify, status, all, scan,
}
use theminidog.Storage.Hosts.Scan.{Event, beat, tick, reports, run, run-beat-reports}

tracker_code : Unit {0}
unfolding new_host_tracker heartbeat classify status all scan run reports lookup insert delete sub
    ◌-ℤ◌
tracker_code = tt

abbrev tracker : HostTracker
tracker = record {
  hosts = ("web-2", seconds 100) ∷ ("web-1", seconds 60) ∷ [];
  reported = [];
  stale_after = seconds 20;
  down_after = seconds 50;
}

-- web-1 is 55 seconds old, web-2 is 15 seconds old.
statuses :
    ((status (seconds 115) "web-1" (some tracker)).status ≡ down)
    × ((status (seconds 115) "web-2" (some tracker)).status ≡ ok)
    × ((status (seconds 125) "web-2" (some tracker)).status ≡ stale)
    × ((scan (seconds 115) (some tracker)).1 ≡ "web-1" ∷ [])
unfolding tracker_code
statuses = (refl, refl, refl, refl)

abbrev history : List Event
history =
    tick (seconds 130) ∷ beat (seconds 140) "web-1" ∷ tick (seconds 170) ∷ tick (seconds 180) ∷ []

first_history : run (beat (seconds 115) "web-2" ∷ history) (some tracker) ≡ "web-1" ∷ "web-2" ∷ []
unfolding tracker_code
first_history = refl

run-beat-reports_example :
    reports "web-2" (run (beat (seconds 115) "web-2" ∷ history) (some tracker)) ≡ 1
unfolding tracker_code
run-beat-reports_example =
    run-beat-reports (seconds 115) "web-2" history tracker (refl, (refl, tt)) named
      (tt, (refl, (tt, (tt, tt))))
  where
    named : ◌≢◌ {A = String} "web-2" ""
    named = ground (arith, str_eq_iff "web-2" "")
