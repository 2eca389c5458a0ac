-- ===== src/Storage/Hosts/Listing.antt =====
-- `HostTracker.All`: the sorted snapshot, against `Status` of each host.
use theminidog.Base.{
  ◌≡◌, refl, true, Option, none, some, List, [], ◌∷◌, String, Time, Map, lookup, str_eq, str_eq_iff,
  IsMap, if◌then◌else◌, arith, All, str_ltb, str_ltb_trans, str_ltb_connected,
}
use theminidog.Storage.Hosts.{
  HostTracker, HostStatus, classify, status, snapshot, insert_sorted, sort_by_host, all,
}

-- The first entry for a host.
unfoldable pub entry : String → List HostStatus → Option HostStatus
entry h [] = none
entry h (s ∷ ss) = if str_eq s.host h then some s else entry h ss

abbrev pub Above : String → List HostStatus → Type 0
Above h = All λ r. str_ltb h r.host ≡ true

-- Strictly ascending by host: sorted, and no host twice.
abbrev pub IsSorted : List HostStatus → Type 0
IsSorted [] = Unit {0}
IsSorted (s ∷ ss) = Above s.host ss × IsSorted ss

entry-insert_sorted :
    (h : String) (s : HostStatus) (rs : List HostStatus)
    → entry s.host rs ≡ none
    → entry h (insert_sorted s rs) ≡ (if str_eq s.host h then some s else entry h rs)
unfolding entry insert_sorted
entry-insert_sorted h s [] n = refl
entry-insert_sorted h s (r ∷ rs) n = ground (
  arith,
  entry-insert_sorted h s rs,
  str_eq_iff r.host h,
  str_eq_iff s.host h,
  str_eq_iff r.host s.host,
)

Above-insert_sorted :
    (h : String) (s : HostStatus) (rs : List HostStatus)
    → str_ltb h s.host ≡ true
    → Above h rs
    → Above h (insert_sorted s rs)
unfolding insert_sorted
Above-insert_sorted h s [] l a = (l, tt)
Above-insert_sorted h s (r ∷ rs) l a = ground (arith, Above-insert_sorted h s rs l a.1)

Above-mono : (h k : String) (rs : List HostStatus) → str_ltb h k ≡ true → Above k rs → Above h rs
Above-mono h k [] l a = tt
Above-mono h k (r ∷ rs) l a = (str_ltb_trans h k r.host l a.0, Above-mono h k rs l a.1)

insert_sorted-IsSorted :
    (s : HostStatus) (rs : List HostStatus)
    → entry s.host rs ≡ none
    → IsSorted rs
    → IsSorted (insert_sorted s rs)
unfolding entry insert_sorted
insert_sorted-IsSorted s [] n o = (tt, tt)
insert_sorted-IsSorted s (r ∷ rs) n o = ground (
  arith,
  str_eq_iff r.host s.host,
  str_ltb_connected r.host s.host,
  insert_sorted-IsSorted s rs,
  Above-insert_sorted r.host s rs,
  Above-mono s.host r.host rs,
)

-- What the snapshot holds for a host.
abbrev pub entry_of : Time → HostTracker → String → Option Time → Option HostStatus
entry_of now t h none = none
entry_of now t h (some ls) = some (record { host = h; status = classify now t ls; last_seen = ls })

sort-snapshot :
    (now : Time) (t : HostTracker) (m : Map Time)
    → IsMap m
    → IsSorted (sort_by_host (snapshot now t m))
      × ((h : String) → entry h (sort_by_host (snapshot now t m)) ≡ entry_of now t h (lookup h m))
unfolding entry sort_by_host snapshot lookup
sort-snapshot now t [] v = (tt, λ h. refl)
sort-snapshot now t ((k, ls) ∷ m) v =
    let s : HostStatus = record { host = k; status = classify now t ls; last_seen = ls } in
    let ih = sort-snapshot now t m v.1 in
    let free : entry k (sort_by_host (snapshot now t m)) ≡ none = ground (arith, ih.1 k) in
    (
      insert_sorted-IsSorted s (sort_by_host (snapshot now t m)) free ih.0,
      λ h. ground (
        arith,
        ih.1 h,
        str_eq_iff k h,
        entry-insert_sorted h s (sort_by_host (snapshot now t m)) free,
      ),
    )

-- `All` is in strictly ascending order of the hosts, so it is the same list for every order in
-- which Go iterates over the map; it has an entry for exactly the known hosts, and that entry is
-- what `Status` says of the host at the same time.
pub all-status :
    (now : Time) (t : HostTracker)
    → IsMap t.hosts
    → IsSorted (all now (some t))
      × ((h : String)
          → entry h (all now (some t))
            ≡ (elim (lookup h t.hosts) [ none ↦ none | some ls ↦ some (status now h (some t)) ]))
unfolding all status
all-status now t v = let r = sort-snapshot now t t.hosts v in (r.0, λ h. ground (arith, r.1 h))
