-- ===== src/Storage/Hosts.antt =====
-- internal/server/storage/hosts.go. The clock is an argument of each call; a nil tracker is
-- `none`. The callback `onDown` is not run here: `scan` returns the hosts that it is called with,
-- in their order. The mutex makes every method one step.
pub mod Scan
pub mod Listing
use theminidog.Base.{
  ◌≡◌, refl, Bool, true, false, ◌&&◌, not, Option, none, some, List, [], ◌∷◌, String, Time,
  Duration, Map, lookup, insert, delete, flag, str_eq, str_ltb, sub, leb_ℤ, pos, if◌then◌else◌,
}

-- "ok", "stale" and "down"
pub data Liveness : Type 0 where
  ok stale down : Liveness

-- `last_seen` is the zero time where the host is unknown.
pub record HostStatus : Type 0 where
  pub host : String
  pub status : Liveness
  pub last_seen : Time

pub record HostTracker : Type 0 where
  pub hosts : Map Time
  pub reported : Map Bool
  pub stale_after : Duration
  pub down_after : Duration

unfoldable pub new_host_tracker : Duration → Duration → HostTracker
new_host_tracker stale_after down_after = record {
  hosts = [];
  reported = [];
  stale_after = stale_after;
  down_after = down_after;
}

unfoldable pub heartbeat : Time → String → Option HostTracker → Option HostTracker
heartbeat now host none = none
heartbeat now host (some t) =
    if str_eq host ""
    then some t
    else some (record t { hosts = insert host now t.hosts; reported = delete host t.reported })

unfoldable pub classify : Time → HostTracker → Time → Liveness
classify now t last_seen =
    let age = sub now last_seen in
    if leb_ℤ t.down_after age then down else if leb_ℤ t.stale_after age then stale else ok

-- The lookup of `Status`, by its two outcomes.
unfoldable pub status_of : Time → HostTracker → String → Option Time → HostStatus
status_of now t host none = record { host = host; status = down; last_seen = pos 0 }
status_of now t host (some ls) = record { host = host; status = classify now t ls; last_seen = ls }

unfoldable pub status : Time → String → Option HostTracker → HostStatus
unfolding status_of
status now host none = record { host = host; status = down; last_seen = pos 0 }
status now host (some t) = status_of now t host (lookup host t.hosts)

-- `sort.Slice` by host name. The hosts are distinct, so any sort gives this list.
insert_sorted : HostStatus → List HostStatus → List HostStatus
insert_sorted s [] = s ∷ []
insert_sorted s (r ∷ rs) = if str_ltb r.host s.host then r ∷ insert_sorted s rs else s ∷ r ∷ rs

unfoldable pub sort_by_host : List HostStatus → List HostStatus
unfolding insert_sorted
sort_by_host [] = []
sort_by_host (s ∷ ss) = insert_sorted s (sort_by_host ss)

snapshot : Time → HostTracker → Map Time → List HostStatus
snapshot now t [] = []
snapshot now t ((h, ls) ∷ m) =
    record { host = h; status = classify now t ls; last_seen = ls } ∷ snapshot now t m

unfoldable pub all : Time → Option HostTracker → List HostStatus
unfolding snapshot sort_by_host
all now none = []
all now (some t) = sort_by_host (snapshot now t t.hosts)

-- The loop of `scan`: the flags after it, and the newly down hosts.
unfoldable pub scan_from : Time → Duration → Map Time → Map Bool → Map Bool × List String
scan_from now down_after [] reported = (reported, [])
scan_from now down_after ((h, ls) ∷ m) reported =
    let fire = leb_ℤ down_after (sub now ls) && not (flag h reported) in
    let rest = scan_from now down_after m (if fire then insert h true reported else reported) in
    (rest.0, if fire then h ∷ rest.1 else rest.1)

-- One tick of the ten-second loop of `Start`.
unfoldable pub scan : Time → Option HostTracker → Option HostTracker × List String
unfolding scan_from
scan now none = (none, [])
scan now (some t) =
    let r = scan_from now t.down_after t.hosts t.reported in
    (some (record t { reported = r.0 }), r.1)
