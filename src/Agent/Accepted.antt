-- ===== src/Agent/Accepted.antt =====
-- What the collectors of internal/agent/collector make, against Metric.Validate of internal/model,
-- which the server applies to every metric of a batch.
use theminidog.Base.{
  ℕ, suc, ◌≡◌, refl, true, false, Option, none, some, List, [], ◌∷◌, String, Time, ℤ, is_zero,
  is_blank, contains, str_eq, Floats, All, All-append, Map, insert, arith, Bool-cases, Option-cases,
  inl, inr, lookup, ◌==◌, subst,
}
use mathlib.Core.Option.{some-injective}
use theminidog.Model.Metric.{
  Metric, validate_metric, valid_metric_names, has_empty_label, validate_metrics, validate_batch,
}
use theminidog.Agent.Network.{
  Counters, NetworkCollector, is_collected, snapshot_from, two_metrics, deltas, collect_network,
}
use theminidog.Agent.Collectors.{Usage, disk_metrics, collect_mounts}

-- The interfaces of a snapshot have names.
abbrev pub IsNamed : List Counters → Type 0
IsNamed = All (λ s. str_eq s.name "" ≡ false)

abbrev HasNames : Map Counters → Type 0
HasNames = All (λ e. str_eq e.0 "" ≡ false)

insert-HasNames :
    (k : String) (s : Counters) (m : Map Counters)
    → str_eq k "" ≡ false
    → HasNames m
    → HasNames (insert k s m)
unfolding insert
insert-HasNames k s [] e h = (e, tt)
insert-HasNames k s ((j, t) ∷ m) e h = elim (Bool-cases (str_eq j k)) [
  | inl same ↦ rw (same, insert) h
  | inr other ↦ rw (other, insert) (h.0, insert-HasNames k s m e h.1)
]

snapshot_from-HasNames :
    (ifaces : List String) (ss : List Counters) (curr : Map Counters)
    → IsNamed ss
    → HasNames curr
    → HasNames (snapshot_from ifaces ss curr)
unfolding snapshot_from
snapshot_from-HasNames ifaces [] curr n h = h
snapshot_from-HasNames ifaces (s ∷ ss) curr n h = elim (Bool-cases (is_collected ifaces s.name)) [
  | inl e ↦
      rw (e, snapshot_from)
        (snapshot_from-HasNames ifaces ss (insert s.name s curr) n.1
          (insert-HasNames s.name s curr n.0 h))
  | inr e ↦ rw (e, snapshot_from) (snapshot_from-HasNames ifaces ss curr n.1 h)
]

module _ (fl : Floats) where
  open fl use {F, of_int, is_nan, is_inf}

  abbrev pub IsFinite : F → Type 0
  IsFinite v = (is_nan v ≡ false) × (is_inf v ≡ false)

  abbrev pub IsValid : Metric F → Type 0
  IsValid m = validate_metric fl m ≡ none

  module _ (now : Time) (timed : is_zero now ≡ false) (finite : (z : ℤ) → IsFinite (of_int z)) where
    pub metric-IsValid :
        (m : Metric F)
        → is_blank m.host ≡ false
        → contains m.name valid_metric_names ≡ true
        → is_zero m.time ≡ false
        → IsFinite m.value
        → has_empty_label m.labels ≡ false
        → IsValid m
    unfolding validate_metric
    metric-IsValid m host name time value labels = ground arith

    two_metrics-IsValid :
        (host name : String) (cs ps : Counters)
        → is_blank host ≡ false
        → str_eq name "" ≡ false
        → All IsValid (two_metrics fl now host name cs ps)
    unfolding two_metrics contains has_empty_label
    two_metrics-IsValid host name cs ps h n =
        let label : has_empty_label (("iface", name) ∷ []) ≡ false = ground arith in
        (
          metric-IsValid _ h refl timed (finite _) label,
          (metric-IsValid _ h refl timed (finite _) label, tt),
        )

    deltas-IsValid :
        (host : String) (prev curr : Map Counters)
        → is_blank host ≡ false
        → HasNames curr
        → All IsValid (deltas fl now host prev curr)
    unfolding deltas
    deltas-IsValid host prev [] h n = tt
    deltas-IsValid host prev ((name, cs) ∷ curr) h n = elim (Option-cases (lookup name prev)) [
      | inl e ↦ rw (e, deltas) (deltas-IsValid host prev curr h n.1)
      | inr (ps, e) ↦
          rw (e, deltas)
            (All-append IsValid (two_metrics fl now host name cs ps) (deltas fl now host prev curr)
              (two_metrics-IsValid host name cs ps h n.0) (deltas-IsValid host prev curr h n.1))
    ]

    pub collect_network-IsValid :
        (stats : List Counters) (c : NetworkCollector) (ms : List (Metric F))
        → is_blank c.host ≡ false
        → IsNamed stats
        → (collect_network fl now (some stats) c).1 ≡ some ms
        → All IsValid ms
    unfolding collect_network
    collect_network-IsValid stats c ms h n e = elim (Option-cases c.prev) [
      | inl first ↦
          let seeded : ◌≡◌ {A = Option (List (Metric F))} (some []) (some ms) =
            ground (arith, first, e) in
          subst (All IsValid) (some-injective [] ms seeded) tt
      | inr (prev, later) ↦
          let curr = snapshot_from c.ifaces stats [] in
          let made : some (deltas fl now c.host prev curr) ≡ some ms = ground (arith, later, e) in
          subst (All IsValid) (some-injective (deltas fl now c.host prev curr) ms made)
            (deltas-IsValid c.host prev curr h (snapshot_from-HasNames c.ifaces stats [] n tt))
    ]

    pub metrics-IsValid :
        (i : ℕ) (ms : List (Metric F)) → All IsValid ms → validate_metrics fl i ms ≡ none
    unfolding validate_metrics
    metrics-IsValid i [] h = refl
    metrics-IsValid i (m ∷ ms) h = ground (arith, h.0, metrics-IsValid (suc i) ms h.1)

    -- At a time that is not zero and where the conversion of an integer to a float64 is finite:
    -- for a host that is not blank and interfaces with names, the metrics that the network
    -- collector returns make a batch that the server's validation accepts.
    pub collect_network-accepted :
        (stats : List Counters) (c : NetworkCollector) (ms : List (Metric F))
        → is_blank c.host ≡ false
        → IsNamed stats
        → (collect_network fl now (some stats) c).1 ≡ some ms
        → validate_batch fl (record { host = c.host; metrics = ms }) ≡ none
    unfolding validate_batch
    collect_network-accepted stats c ms h n e =
        ground (arith, h, metrics-IsValid 0 ms (collect_network-IsValid stats c ms h n e))

    disk_metrics-IsValid :
        (host path : String) (u : Usage fl)
        → is_blank host ≡ false
        → str_eq path "" ≡ false
        → IsFinite u.used_percent
        → All IsValid (disk_metrics fl now host path u)
    unfolding disk_metrics contains has_empty_label
    disk_metrics-IsValid host path u h n f =
        let label : has_empty_label (("mount", path) ∷ []) ≡ false = ground arith in
        (
          metric-IsValid _ h refl timed f label,
          (
            metric-IsValid _ h refl timed (finite _) label,
            (metric-IsValid _ h refl timed (finite _) label, tt),
          ),
        )

    -- At a time that is not zero and where the conversion of an integer to a float64 is finite:
    -- for a host that is not blank, mounts with names and finite percentages, every metric that
    -- the disk collector makes of the mounts is accepted by the server's validation.
    pub collect_mounts-IsValid :
        (host : String) (usage : String → Option (Usage fl)) (paths : List String)
        → is_blank host ≡ false
        → All (λ p. str_eq p "" ≡ false) paths
        → ((p : String) (u : Usage fl) → usage p ≡ some u → IsFinite u.used_percent)
        → All IsValid (collect_mounts fl now host usage paths)
    unfolding collect_mounts
    collect_mounts-IsValid host usage [] h n f = tt
    collect_mounts-IsValid host usage (p ∷ ps) h n f = elim (Option-cases (usage p)) [
      | inl e ↦ rw (e, collect_mounts) (collect_mounts-IsValid host usage ps h n.1 f)
      | inr (u, e) ↦ elim (Bool-cases (u.total == 0)) [
        | inl none_there ↦
            rw (e, none_there, collect_mounts) (collect_mounts-IsValid host usage ps h n.1 f)
        | inr sized ↦
            rw (e, sized, collect_mounts)
              (All-append IsValid (disk_metrics fl now host p u)
                (collect_mounts fl now host usage ps)
                (disk_metrics-IsValid host p u h n.0 (f p u e))
                (collect_mounts-IsValid host usage ps h n.1 f))
      ]
    ]
