-- ===== src/Storage/Hosts/Scan.antt =====
-- `HostTracker.scan`: which hosts are reported down, and how often.
use theminidog.Base.{
  ℕ, suc, ◌+◌, ◌≤◌, ◌≡◌, refl, Bool, true, false, ◌&&◌, ◌||◌, not, Option, none, some, List, [],
  ◌∷◌, ◌++◌, String, Time, Duration, Map, lookup, insert, delete, flag, str_eq, str_eq_iff,
  lookup-insert, lookup-delete, IsMap, insert-IsMap, sub, leb_ℤ, if◌then◌else◌, arith, ◌↔◌, ◌≢◌,
  All,
}
use theminidog.Storage.Hosts.{HostTracker, heartbeat, classify, status, scan_from, scan, down}

-- How often `onDown` is called with a host.
unfoldable pub reports : String → List String → ℕ
reports h [] = 0
reports h (k ∷ ks) = if str_eq k h then suc (reports h ks) else reports h ks

pub reports-append :
    (h : String) (xs ys : List String) → reports h (xs ++ ys) ≡ reports h xs + reports h ys
unfolding reports
reports-append h [] ys = omega arith
reports-append h (k ∷ ks) ys = ground (arith, reports-append h ks ys)

-- A host that was seen, and is old enough to be down.
abbrev pub overdue : Time → Duration → Option Time → Bool
overdue now down_after none = false
overdue now down_after (some ls) = leb_ℤ down_after (sub now ls)

flag-insert :
    (k j : String) (m : Map Bool)
    → flag j (insert k true m) ≡ (if str_eq k j then true else flag j m)
flag-insert k j m = ground (arith, lookup-insert k j true m)

-- The loop reports a host once if it is overdue and its flag is down, else never, and raises the
-- flags of the overdue.
scan_from_lem :
    (now : Time) (d : Duration) (m : Map Time) (reported : Map Bool) (h : String)
    → IsMap m
    → (reports h (scan_from now d m reported).1
        ≡ (if overdue now d (lookup h m) && not (flag h reported) then 1 else 0))
      × (flag h (scan_from now d m reported).0
          ≡ (if overdue now d (lookup h m) then true else flag h reported))
unfolding scan_from lookup reports
scan_from_lem now d [] reported h v = (refl, refl)
scan_from_lem now d ((k, ls) ∷ m) reported h v = ground (
  arith,
  str_eq_iff k h,
  flag-insert k h reported,
  scan_from_lem now d m reported h v.1,
  scan_from_lem now d m (insert k true reported) h v.1,
)

-- A scan calls `onDown` at most once for a host, and does so exactly when the host is known, its
-- status at that time is down, and it has not been reported since its last heartbeat. The scan
-- leaves every status as it was.
pub scan-status :
    (now : Time) (t : HostTracker) (h : String)
    → IsMap t.hosts
    → (reports h (scan now (some t)).1 ≤ 1)
      × ((reports h (scan now (some t)).1 ≡ 1) ↔ (
          (lookup h t.hosts ≢ none)
          × ((status now h (some t)).status ≡ down)
          × (flag h t.reported ≡ false)))
      × (status now h (scan now (some t)).0 ≡ status now h (some t))
unfolding scan status classify
scan-status now t h v = ground (arith, scan_from_lem now t.down_after t.hosts t.reported h v)

-- What happens to a tracker: a heartbeat, or a tick of the scanner, each with its time.
pub data Event : Type 0 where
  beat : Time → String → Event
  tick : Time → Event

-- The reports of a history, in order.
unfoldable pub run : List Event → Option HostTracker → List String
run [] t = []
run (beat now h ∷ es) t = run es (heartbeat now h t)
run (tick now ∷ es) t = let r = scan now t in r.1 ++ run es r.0

-- No heartbeat of the host.
abbrev pub Silent : String → List Event → Type 0
Silent h = All λ e. elim e [ beat now k ↦ str_eq k h ≡ false | tick now ↦ Unit {0} ]

-- Some tick finds the host overdue.
abbrev pub late : Duration → Option Time → List Event → Bool
late d seen [] = false
late d seen (beat now k ∷ es) = late d seen es
late d seen (tick now ∷ es) = overdue now d seen || late d seen es

run-reports :
    (es : List Event) (t : HostTracker) (h : String)
    → IsMap t.hosts
    → Silent h es
    → reports h (run es (some t))
      ≡ (if late t.down_after (lookup h t.hosts) es && not (flag h t.reported) then 1 else 0)
unfolding run scan heartbeat reports
run-reports [] t h v s = ground arith
run-reports (beat now k ∷ es) t h v s = ground (
  arith,
  run-reports es t h v s.1,
  run-reports es (record t { hosts = insert k now t.hosts; reported = delete k t.reported }) h
      (insert-IsMap k now t.hosts v) s.1,
  lookup-insert k h now t.hosts,
  lookup-delete k h t.reported,
)
run-reports (tick now ∷ es) t h v s =
    let r = scan_from now t.down_after t.hosts t.reported in
    ground (
      arith,
      scan_from_lem now t.down_after t.hosts t.reported h v,
      reports-append h r.1 (run es (some (record t { reported = r.0 }))),
      run-reports es (record t { reported = r.0 }) h v s.1,
    )

-- From one heartbeat of a host to its next, `onDown` is called for it exactly once if some scan
-- finds it at least `downAfter` old, and never otherwise: whatever was reported before, however
-- many scans there are, and whatever the other hosts do.
pub run-beat-reports :
    (now : Time) (h : String) (es : List Event) (t : HostTracker)
    → IsMap t.hosts
    → h ≢ ""
    → Silent h es
    → reports h (run (beat now h ∷ es) (some t))
      ≡ (if late t.down_after (some now) es then 1 else 0)
unfolding run heartbeat
run-beat-reports now h es t v named s = ground (
  arith,
  str_eq_iff h "",
  str_eq_iff h h,
  run-reports es (record t { hosts = insert h now t.hosts; reported = delete h t.reported }) h
      (insert-IsMap h now t.hosts v) s,
  lookup-insert h h now t.hosts,
  lookup-delete h h t.reported,
)
