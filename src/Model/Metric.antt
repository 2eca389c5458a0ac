-- ===== src/Model/Metric.antt =====
-- internal/model/metric.go, over an abstract float64. A label map is the list of its entries.
use theminidog.Base.{
  ℕ, suc, Bool, false, ◌||◌, Option, none, some, List, [], ◌∷◌, String, Time, is_zero, is_blank,
  contains, str_eq, if◌then◌else◌, not, Map, Floats,
}

pub record Metric (F : Type 0) : Type 0 where
  pub time : Time
  pub host : String
  pub name : String
  pub value : F
  pub labels : Map String

pub record MetricBatch (F : Type 0) : Type 0 where
  pub host : String
  pub metrics : List (Metric F)

abbrev pub valid_metric_names : List String
valid_metric_names =
    "cpu.usage_pct" ∷ "mem.used_pct" ∷ "mem.used_bytes" ∷ "mem.total_bytes" ∷ "disk.used_pct"
    ∷ "disk.used_bytes" ∷ "disk.total_bytes" ∷ "net.bytes_in" ∷ "net.bytes_out" ∷ []

pub data MetricError : Type 0 where
  blank_host : MetricError
  unknown_name : String → MetricError
  zero_time not_finite empty_label : MetricError

-- Some label has an empty key or value.
unfoldable pub has_empty_label : Map String → Bool
has_empty_label [] = false
has_empty_label ((k, v) ∷ m) = (str_eq k "" || str_eq v "") || has_empty_label m

pub data BatchError : Type 0 where
  blank_batch_host : BatchError
  metric_error : ℕ → MetricError → BatchError

module _ (fl : Floats) where
  open fl use {F, is_nan, is_inf}

  unfoldable pub validate_metric : Metric F → Option MetricError
  validate_metric m =
      if is_blank m.host
      then some blank_host
      else if not (contains m.name valid_metric_names)
      then some (unknown_name m.name)
      else if is_zero m.time
      then some zero_time
      else if is_nan m.value || is_inf m.value
      then some not_finite
      else if has_empty_label m.labels
      then some empty_label
      else none

  unfoldable pub validate_metrics : ℕ → List (Metric F) → Option BatchError
  validate_metrics i [] = none
  validate_metrics i (m ∷ ms) =
      let rest = validate_metrics (suc i) ms in
      elim (validate_metric m) [ none ↦ rest | some x ↦ some (metric_error i x) ]

  unfoldable pub validate_batch : MetricBatch F → Option BatchError
  unfolding validate_metrics
  validate_batch b = if is_blank b.host then some blank_batch_host else validate_metrics 0 b.metrics
