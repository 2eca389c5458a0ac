-- ===== src/Storage/Metrics.antt =====
-- internal/server/storage/metrics.go. The pool is an argument: `exec i` says whether the i-th
-- statement of a batch succeeds, and a query is answered by rows or an error. The labels of a
-- metric go to the store as its map, or as NULL.
pub mod Params
use Prim.Native.String.{◌++◌}
use theminidog.Base.{
  ℕ, Bool, true, false, not, Option, none, some, List, [], ◌∷◌, String, Time, Duration, ℤ, pos,
  -ℤ_parts, ltb_ℤ, sub, seconds, ◌*◌, ◌-ℤ◌, length, map, Map, lookup, contains, is_blank,
  if◌then◌else◌, Floats, Result, ok, err,
}
use theminidog.Model.Metric.{Metric, MetricBatch, valid_metric_names}
use theminidog.Storage.Batch.{exec_from}

pub record QueryParams : Type 0 where
  pub host : String
  pub name : String
  pub from : Time
  pub to : Time
  pub bucket : String
  pub agg : String

pub record QueryPoint (F : Type 0) : Type 0 where
  pub time : Time
  pub value : F

unfoldable pub valid_buckets : Map String
valid_buckets =
    ("1m", "1 minute")
    ∷ ("5m", "5 minutes")
    ∷ ("15m", "15 minutes")
    ∷ ("1h", "1 hour")
    ∷ ("1d", "1 day")
    ∷ []

unfoldable pub valid_aggs : Map String
valid_aggs = ("avg", "avg") ∷ ("max", "max") ∷ ("min", "min") ∷ []

-- `validMetricNames`
abbrev pub stored_names : List String
stored_names =
    "cpu.usage_pct" ∷ "mem.used_pct" ∷ "mem.used_bytes" ∷ "mem.total_bytes" ∷ "disk.used_pct"
    ∷ "disk.used_bytes" ∷ "disk.total_bytes" ∷ "net.bytes_in" ∷ "net.bytes_out" ∷ []

pub data ParamsError : Type 0 where
  host_required name_required : ParamsError
  unknown_name bad_bucket bad_agg : String → ParamsError
  not_before range_too_long : ParamsError

abbrev pub has_key : String → Map String → Bool
has_key k m = elim (lookup k m) [ none ↦ false | some v ↦ true ]

abbrev pub thirty_days : Duration
thirty_days = seconds 2_592_000

unfoldable pub validate : QueryParams → Option ParamsError
unfolding valid_buckets valid_aggs
validate p =
    if is_blank p.host
    then some host_required
    else if is_blank p.name
    then some name_required
    else if not (contains p.name stored_names)
    then some (unknown_name p.name)
    else if not (has_key p.bucket valid_buckets)
    then some (bad_bucket p.bucket)
    else if not (has_key p.agg valid_aggs)
    then some (bad_agg p.agg)
    else if not (ltb_ℤ p.from p.to)
    then some not_before
    else if ltb_ℤ thirty_days (sub p.to p.from)
    then some range_too_long
    else none

pub record InsertMetric (F : Type 0) : Type 0 where
  pub time : Time
  pub host : String
  pub name : String
  pub value : F
  pub labels : Option (Map String)

-- The labels of a metric, NULL where there are none.
unfoldable pub label_arg : Map String → Option (Map String)
label_arg [] = none
label_arg (l ∷ ls) = some (l ∷ ls)

unfoldable pub queue : {F : Type 0} → Metric F → InsertMetric F
unfolding label_arg
queue m = record {
  time = m.time;
  host = m.host;
  name = m.name;
  value = m.value;
  labels = label_arg m.labels;
}

-- The number that the repository returns, and whether an error comes with it.
unfoldable pub insert : {F : Type 0} → (List (InsertMetric F) → ℕ → Bool) → MetricBatch F → ℕ × Bool
unfolding queue
insert exec batch = let b = map queue batch.metrics in exec_from (exec b) 0 (length b)

-- A query: its text and the arguments of its four placeholders.
pub record MetricSelect : Type 0 where
  pub sql : String
  pub host : String
  pub name : String
  pub from : Time
  pub to : Time

-- The text, around the interval literal and the function name.
unfoldable pub select_text : String → String → String
select_text bucket_literal agg_fn =
    "\n        SELECT time_bucket('"
    ++ (bucket_literal
        ++ ("', time) AS bucket,\n               "
            ++ (agg_fn
                ++ "(value) AS value\n        FROM metrics\n        WHERE host = $1\n          AND name = $2\n          AND time >= $3\n          AND time <= $4\n        GROUP BY bucket\n        ORDER BY bucket DESC")))

-- `m[k]` of a map to texts: the empty text where the key is missing.
unfoldable pub literal : String → Map String → String
literal k m = elim (lookup k m) [ none ↦ "" | some v ↦ v ]

unfoldable pub select : QueryParams → MetricSelect
unfolding select_text literal valid_buckets valid_aggs
select p = record {
  sql = select_text (literal p.bucket valid_buckets) (literal p.agg valid_aggs);
  host = p.host;
  name = p.name;
  from = p.from;
  to = p.to;
}

pub data QueryError : Type 0 where
  query_failed scan_failed iterate_failed : QueryError

-- What the pool answers: an error, or rows, some of which may fail to scan, and the error at their
-- end.
pub data Rows (A : Type 0) : Type 0 where
  refused : Rows A
  rows : List (Option A) → Bool → Rows A

unfoldable pub cons_row : {A : Type 0} → A → Result QueryError (List A) → Result QueryError (List A)
cons_row p (ok ps) = ok (p ∷ ps)
cons_row p (err e) = err e

unfoldable pub scan_rows : {A : Type 0} → List (Option A) → Bool → Result QueryError (List A)
unfolding cons_row
scan_rows [] true = err iterate_failed
scan_rows [] false = ok []
scan_rows (none ∷ ps) broken = err scan_failed
scan_rows (some p ∷ ps) broken = cons_row p (scan_rows ps broken)

unfoldable pub read : {A : Type 0} → Rows A → Result QueryError (List A)
unfolding scan_rows
read refused = err query_failed
read (rows ps broken) = scan_rows ps broken

unfoldable pub query :
    {F : Type 0}
    → (MetricSelect → Rows (QueryPoint F))
    → QueryParams
    → Result QueryError (List (QueryPoint F))
unfolding select read
query pool p = read (pool (select p))

-- The hosts that the store answers for the time `now - window`. An error at the end of the rows is
-- returned beside the hosts.
unfoldable pub scan_hosts : List (Option String) → Bool → List String × Option QueryError
scan_hosts [] true = ([], some iterate_failed)
scan_hosts [] false = ([], none)
scan_hosts (none ∷ hs) broken = ([], some scan_failed)
scan_hosts (some h ∷ hs) broken =
    let (found, e) = scan_hosts hs broken in
    elim e [
      | none ↦ (h ∷ found, none)
      | some scan_failed ↦ ([], some scan_failed)
      | some x ↦ (h ∷ found, some x)
    ]

unfoldable pub hosts : (Time → Rows String) → Time → Duration → List String × Option QueryError
unfolding scan_hosts
hosts pool now window = elim (pool (now -ℤ window)) [
  | refused ↦ ([], some query_failed)
  | rows hs broken ↦ scan_hosts hs broken
]
