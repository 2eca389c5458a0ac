-- ===== src/Agent/Collectors.antt =====
-- internal/agent/collector: the registry, and the collectors of the processor, the memory and the
-- disks. What gopsutil returns is an argument; a collection is `none` with an error.
use theminidog.Base.{
  ℕ, suc, Bool, Option, none, some, List, [], ◌∷◌, ◌++◌, String, Time, pos, Floats, ◌==◌,
  if◌then◌else◌,
}
use theminidog.Model.Metric.{Metric}

module _ (fl : Floats) where
  open fl use {F, of_int}

  -- `Name` and the result of `Collect`, with its metrics beside an error.
  pub record Collected : Type 0 where
    pub name : String
    pub metrics : List (Metric F)
    pub failed : Bool

  -- The metrics, and the names of the collectors that failed.
  unfoldable pub collect_all : List Collected → List (Metric F) × List String
  collect_all [] = ([], [])
  collect_all (c ∷ cs) =
      let (ms, errs) = collect_all cs in (c.metrics ++ ms, if c.failed then c.name ∷ errs else errs)

  module _ (itoa : ℕ → String) (now : Time) (host : String) where
    unfoldable pub core_metric : String → F → Metric F
    core_metric core v = record {
      time = now;
      host = host;
      name = "cpu.usage_pct";
      value = v;
      labels = ("core", core) ∷ [];
    }

    unfoldable pub core_metrics : ℕ → List F → List (Metric F)
    unfolding core_metric
    core_metrics i [] = []
    core_metrics i (v ∷ vs) = core_metric (itoa i) v ∷ core_metrics (suc i) vs

    -- The two calls of `statFn`: the total, and the cores.
    unfoldable pub collect_cpu : Option (List F) → Option (List F) → Option (List (Metric F))
    unfolding core_metrics
    collect_cpu none cores = none
    collect_cpu (some []) cores = none
    collect_cpu (some (v ∷ vs)) none = none
    collect_cpu (some (v ∷ vs)) (some cores) = some (core_metric "total" v ∷ core_metrics 0 cores)

  pub record Usage : Type 0 where
    pub used_percent : F
    pub used : ℕ
    pub total : ℕ

  unfoldable pub collect_memory : Time → String → Option Usage → Option (List (Metric F))
  collect_memory now host none = none
  collect_memory now host (some u) = some (
      record { time = now; host = host; name = "mem.used_pct"; value = u.used_percent; labels = [] }
      ∷ record {
        time = now;
        host = host;
        name = "mem.used_bytes";
        value = of_int (pos u.used);
        labels = [];
      }
      ∷ record {
        time = now;
        host = host;
        name = "mem.total_bytes";
        value = of_int (pos u.total);
        labels = [];
      }
      ∷ [])

  unfoldable pub disk_metrics : Time → String → String → Usage → List (Metric F)
  disk_metrics now host path u =
      let labels = ("mount", path) ∷ [] in
      record {
        time = now;
        host = host;
        name = "disk.used_pct";
        value = u.used_percent;
        labels = labels;
      }
      ∷ record {
        time = now;
        host = host;
        name = "disk.used_bytes";
        value = of_int (pos u.used);
        labels = labels;
      }
      ∷ record {
        time = now;
        host = host;
        name = "disk.total_bytes";
        value = of_int (pos u.total);
        labels = labels;
      }
      ∷ []

  -- A mount whose usage fails or that is empty is left out.
  unfoldable pub collect_mounts :
      Time → String → (String → Option Usage) → List String → List (Metric F)
  unfolding disk_metrics
  collect_mounts now host usage [] = []
  collect_mounts now host usage (path ∷ paths) =
      let rest = collect_mounts now host usage paths in
      elim (usage path) [
        | none ↦ rest
        | some u ↦ if u.total == 0 then rest else disk_metrics now host path u ++ rest
      ]

  -- `partitions` are the mount points of `partFn`, asked for where no mounts are configured.
  unfoldable pub collect_disk :
      Time
      → String
      → List String
      → Option (List String)
      → (String → Option Usage)
      → Option (List (Metric F))
  unfolding collect_mounts
  collect_disk now host (m ∷ ms) partitions usage = some (collect_mounts now host usage (m ∷ ms))
  collect_disk now host [] none usage = none
  collect_disk now host [] (some paths) usage = some (collect_mounts now host usage paths)
