-- ===== src/Agent/Tick.antt =====
-- The collection of a tick: the registry that cmd/agent/main.go makes, with its four collectors,
-- against Metric.Validate of internal/model. What gopsutil returns, and the times of the four
-- collections, are arguments.
use theminidog.Base.{
  ℕ, suc, ◌≡◌, refl, true, false, Option, none, some, List, [], ◌∷◌, String, Time, ℤ, is_zero,
  is_blank, contains, str_eq, decimal, decimal-filled, Floats, All, All-append, arith, Option-cases,
  inl, inr,
}
use theminidog.Model.Metric.{Metric, has_empty_label, validate_batch}
use theminidog.Agent.Network.{Counters, NetworkCollector, collect_network}
use theminidog.Agent.Collectors.{
  Collected, collect_all, Usage, core_metric, core_metrics, collect_cpu, collect_memory,
  collect_disk,
}
use theminidog.Agent.Accepted.{
  IsNamed, IsFinite, IsValid, metric-IsValid, metrics-IsValid, collect_network-IsValid,
  collect_mounts-IsValid,
}

module _ (fl : Floats) where
  open fl use {F, of_int}

  -- What gopsutil returns to the collectors, `none` for an error.
  pub record Readings : Type 0 where
    pub totals : Option (List F)
    pub cores : Option (List F)
    pub memory : Option (Usage fl)
    pub partitions : Option (List String)
    pub usage : String → Option (Usage fl)
    pub counters : Option (List Counters)
    pub cpu_time : Time
    pub memory_time : Time
    pub disk_time : Time
    pub network_time : Time

  unfoldable pub collected : String → Option (List (Metric F)) → Collected fl
  collected name none = record { name = name; metrics = []; failed = true }
  collected name (some ms) = record { name = name; metrics = ms; failed = false }

  -- The results of the four collectors, in the order of the registry; `net` is the network's. No
  -- mounts are configured.
  unfoldable pub results : Readings → String → Option (List (Metric F)) → List (Collected fl)
  unfolding collected collect_cpu collect_memory collect_disk
  results s host net =
      collected "cpu" (collect_cpu fl decimal s.cpu_time host s.totals s.cores)
      ∷ collected "memory" (collect_memory fl s.memory_time host s.memory)
      ∷ collected "disk" (collect_disk fl s.disk_time host [] s.partitions s.usage)
      ∷ collected "network" net
      ∷ []

  -- `CollectAll`
  unfoldable pub collect_tick :
      Readings → String → NetworkCollector → NetworkCollector × (List (Metric F) × List String)
  unfolding results collect_all collect_network
  collect_tick s host c =
      let (c', net) = collect_network fl s.network_time s.counters c in
      (c', collect_all fl (results s host net))

  -- The clock is past its zero, the percentages are finite, and mounts and interfaces have names.
  pub record IsSane (s : Readings) : Type 0 where
    pub cpu_timed : is_zero s.cpu_time ≡ false
    pub memory_timed : is_zero s.memory_time ≡ false
    pub disk_timed : is_zero s.disk_time ≡ false
    pub network_timed : is_zero s.network_time ≡ false
    pub totals_finite : (vs : List F) → s.totals ≡ some vs → All (IsFinite fl) vs
    pub cores_finite : (vs : List F) → s.cores ≡ some vs → All (IsFinite fl) vs
    pub memory_finite : (u : Usage fl) → s.memory ≡ some u → IsFinite fl u.used_percent
    pub mounts_named :
        (ps : List String) → s.partitions ≡ some ps → All (λ p. str_eq p "" ≡ false) ps
    pub usage_finite : (p : String) (u : Usage fl) → s.usage p ≡ some u → IsFinite fl u.used_percent
    pub counters_named : (cs : List Counters) → s.counters ≡ some cs → IsNamed cs

  -- What a collector returned is accepted, nothing where it failed.
  abbrev AllValid : Option (List (Metric F)) → Type 0
  AllValid none = Unit {0}
  AllValid (some ms) = All (IsValid fl) ms

  module _ (host : String) (named : is_blank host ≡ false)
      (finite : (z : ℤ) → IsFinite fl (of_int z)) where
    core_metric-IsValid :
        (now : Time) (core : String) (v : F)
        → is_zero now ≡ false
        → str_eq core "" ≡ false
        → IsFinite fl v
        → IsValid fl (core_metric fl decimal now host core v)
    unfolding core_metric has_empty_label contains
    core_metric-IsValid now core v timed filled f =
        let label : has_empty_label (("core", core) ∷ []) ≡ false = ground (arith, filled) in
        metric-IsValid fl now timed finite _ named refl timed f label

    core_metrics-IsValid :
        (now : Time) (i : ℕ) (vs : List F)
        → is_zero now ≡ false
        → All (IsFinite fl) vs
        → All (IsValid fl) (core_metrics fl decimal now host i vs)
    unfolding core_metrics
    core_metrics-IsValid now i [] timed f = tt
    core_metrics-IsValid now i (v ∷ vs) timed f = (
      core_metric-IsValid now (decimal i) v timed (decimal-filled i) f.0,
      core_metrics-IsValid now (suc i) vs timed f.1,
    )

    collect_cpu-AllValid :
        (now : Time) (totals cores : Option (List F))
        → is_zero now ≡ false
        → ((vs : List F) → totals ≡ some vs → All (IsFinite fl) vs)
        → ((vs : List F) → cores ≡ some vs → All (IsFinite fl) vs)
        → AllValid (collect_cpu fl decimal now host totals cores)
    unfolding collect_cpu
    collect_cpu-AllValid now none cores timed t c = tt
    collect_cpu-AllValid now (some []) cores timed t c = tt
    collect_cpu-AllValid now (some (v ∷ vs)) none timed t c = tt
    collect_cpu-AllValid now (some (v ∷ vs)) (some ws) timed t c = (
      core_metric-IsValid now "total" v timed refl (t (v ∷ vs) refl).0,
      core_metrics-IsValid now 0 ws timed (c ws refl),
    )

    collect_memory-AllValid :
        (now : Time) (memory : Option (Usage fl))
        → is_zero now ≡ false
        → ((u : Usage fl) → memory ≡ some u → IsFinite fl u.used_percent)
        → AllValid (collect_memory fl now host memory)
    unfolding collect_memory has_empty_label contains
    collect_memory-AllValid now none timed f = tt
    collect_memory-AllValid now (some u) timed f = (
      metric-IsValid fl now timed finite _ named refl timed (f u refl) refl,
      (
        metric-IsValid fl now timed finite _ named refl timed (finite _) refl,
        (metric-IsValid fl now timed finite _ named refl timed (finite _) refl, tt),
      ),
    )

    collect_disk-AllValid :
        (now : Time) (partitions : Option (List String)) (usage : String → Option (Usage fl))
        → is_zero now ≡ false
        → ((ps : List String) → partitions ≡ some ps → All (λ p. str_eq p "" ≡ false) ps)
        → ((p : String) (u : Usage fl) → usage p ≡ some u → IsFinite fl u.used_percent)
        → AllValid (collect_disk fl now host [] partitions usage)
    unfolding collect_disk
    collect_disk-AllValid now none usage timed n f = tt
    collect_disk-AllValid now (some ps) usage timed n f =
        collect_mounts-IsValid fl now timed finite host usage ps named (n ps refl) f

    collect_network-AllValid :
        (now : Time) (counters : Option (List Counters)) (c : NetworkCollector)
        → is_zero now ≡ false
        → c.host ≡ host
        → ((cs : List Counters) → counters ≡ some cs → IsNamed cs)
        → AllValid (collect_network fl now counters c).1
    collect_network-AllValid now none c timed same n = unfold collect_network in tt
    collect_network-AllValid now (some cs) c timed same n =
        elim (Option-cases (collect_network fl now (some cs) c).1) [
          | inl e ↦ rw e tt
          | inr (ms, e) ↦
              rw e
                (collect_network-IsValid fl now timed finite cs c ms (rw same named) (n cs refl) e)
        ]

    collected-IsValid :
        (name : String) (o : Option (List (Metric F)))
        → AllValid o
        → All (IsValid fl) (collected name o).metrics
    unfolding collected
    collected-IsValid name none h = tt
    collected-IsValid name (some ms) h = h

    collect_all-IsValid :
        (cs : List (Collected fl))
        → All (λ c. All (IsValid fl) c.metrics) cs
        → All (IsValid fl) (collect_all fl cs).0
    unfolding collect_all
    collect_all-IsValid [] h = tt
    collect_all-IsValid (c ∷ cs) h =
        All-append (IsValid fl) c.metrics (collect_all fl cs).0 h.0 (collect_all-IsValid cs h.1)

    results-AllValid :
        (s : Readings) (net : Option (List (Metric F)))
        → IsSane s
        → AllValid net
        → All (λ c. All (IsValid fl) c.metrics) (results s host net)
    unfolding results
    results-AllValid s net sane n = (
      collected-IsValid "cpu" (collect_cpu fl decimal s.cpu_time host s.totals s.cores) (
          collect_cpu-AllValid s.cpu_time s.totals s.cores sane.cpu_timed sane.totals_finite
            sane.cores_finite),
      (
        collected-IsValid "memory" (collect_memory fl s.memory_time host s.memory)
            (collect_memory-AllValid s.memory_time s.memory sane.memory_timed sane.memory_finite),
        (
          collected-IsValid "disk" (collect_disk fl s.disk_time host [] s.partitions s.usage) (
              collect_disk-AllValid s.disk_time s.partitions s.usage sane.disk_timed
                sane.mounts_named sane.usage_finite),
          (collected-IsValid "network" net n, tt),
        ),
      ),
    )

    -- At times that are not zero, where the conversion of an integer to a float64 and the
    -- percentages of the processor, the memory and the disks are finite, and mounts and interfaces
    -- have names: whichever collectors fail, and whatever the network collector has seen before,
    -- the metrics that a tick collects for a host that is not blank make a batch that the server's
    -- validation accepts.
    pub collect_tick-accepted :
        (s : Readings) (c : NetworkCollector)
        → IsSane s
        → c.host ≡ host
        → validate_batch fl (record { host = host; metrics = (collect_tick s host c).1.0 }) ≡ none
    unfolding validate_batch collect_tick
    collect_tick-accepted s c sane same =
        let net = (collect_network fl s.network_time s.counters c).1 in
        let each = results-AllValid s net sane (
          collect_network-AllValid s.network_time s.counters c sane.network_timed same
            sane.counters_named) in
        let valid : All (IsValid fl) (collect_all fl (results s host net)).0 =
          collect_all-IsValid (results s host net) each in
        ground (
          arith,
          named,
          metrics-IsValid fl s.cpu_time sane.cpu_timed finite 0
              (collect_all fl (results s host net)).0 valid,
        )
