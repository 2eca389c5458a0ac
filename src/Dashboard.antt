-- ===== src/Dashboard.antt =====
-- internal/server/dashboard/dashboard.go: the handlers of the dashboard. The page is the data that
-- the template is given; the template itself is an asset and is not modelled.
pub mod Windows
pub mod Agreement
use theminidog.Base.{
  ℕ, ◌≡◌, refl, Bool, Option, none, some, List, [], ◌∷◌, String, Time, Duration, ℤ, pos, ◌-ℤ◌,
  ltb_ℤ, seconds, Map, lookup, str_eq, atoi, if◌then◌else◌, Result, ok, err,
}
use theminidog.Storage.Metrics as Metrics
use theminidog.Storage.Metrics.{MetricSelect, QueryPoint, QueryParams, Rows}
use theminidog.Storage.Logs as Logs
use theminidog.Storage.Logs.{LogQueryParams, LogRow, Select}
use theminidog.Storage.Hosts.{HostTracker, HostStatus, all}
use theminidog.Alerting.Evaluator.{Evaluator, Alert, active_alerts}
use theminidog.Api.Responses.{
  Values, get, Series, PageData, DashError, host_required, invalid_window, DashMetrics, Body,
  dash_error, Response,
}

abbrev pub canonical_names : List String
canonical_names =
    "cpu.usage_pct" ∷ "mem.used_pct" ∷ "mem.used_bytes" ∷ "mem.total_bytes" ∷ "disk.used_pct"
    ∷ "disk.used_bytes" ∷ "disk.total_bytes" ∷ "net.bytes_in" ∷ "net.bytes_out" ∷ []

unfoldable pub window_durations : Map Duration
window_durations =
    ("5m", seconds 300)
    ∷ ("15m", seconds 900)
    ∷ ("30m", seconds 1800)
    ∷ ("1h", seconds 3600)
    ∷ ("6h", seconds 21_600)
    ∷ []

-- The error of the listing is ignored, and the hosts beside it are shown.
unfoldable pub page_data :
    {F : Type 0}
    → (Time → Rows String)
    → Time
    → Option (Evaluator F)
    → Option HostTracker
    → PageData F
page_data host_pool now alerter tracker = record {
  hosts = (Metrics.hosts host_pool now (seconds 1800)).0;
  host_statuses = all now tracker;
  alerts = active_alerts alerter;
  refresh = 30;
}

-- The parameters of one series.
unfoldable pub series_params : Time → String → Duration → String → QueryParams
series_params now host window name = record {
  host = host;
  name = name;
  from = now -ℤ window;
  to = now;
  bucket = "1m";
  agg = "avg";
}

unfoldable pub points_of :
    {F : Type 0} → Result Metrics.QueryError (List (QueryPoint F)) → List (QueryPoint F)
points_of (ok ps) = ps
points_of (err e) = []

unfoldable pub series_from :
    {F : Type 0}
    → (MetricSelect → Rows (QueryPoint F))
    → Time
    → String
    → Duration
    → List String
    → List (Series F)
unfolding series_params points_of
series_from pool now host window [] = []
series_from pool now host window (name ∷ names) =
    record {
      name = name;
      points = points_of (Metrics.query pool (series_params now host window name));
    }
    ∷ series_from pool now host window names

-- The window of a request: 30 minutes where it is empty.
unfoldable pub window_of : Values → String
window_of q = let w = get "window" q in if str_eq w "" then "30m" else w

-- An error is answered 400, the series 200.
unfoldable pub handle_dashboard_metrics :
    {F : Type 0}
    → (MetricSelect → Rows (QueryPoint F))
    → Time
    → Values
    → Result DashError (DashMetrics F)
unfolding window_of window_durations series_from
handle_dashboard_metrics pool now q =
    let host = get "host" q in
    if str_eq host "" then err host_required else elim (lookup (window_of q) window_durations) [
      | none ↦ err invalid_window
      | some window ↦ ok (record {
        host = host;
        window = window_of q;
        series = series_from pool now host window canonical_names;
      })
    ]

-- A limit that is no positive number is passed over, and 200 is the most.
unfoldable pub limit_of : String → ℤ
limit_of ls =
    let limit = elim (atoi ls) as (λ x. ℤ) [
      | none ↦ pos 50
      | some n ↦ if ltb_ℤ (pos 0) n then n else pos 50
    ] in
    let asked = if str_eq ls "" then pos 50 else limit in
    if ltb_ℤ (pos 200) asked then pos 200 else asked

unfoldable pub entries_of : Result Logs.QueryError (List LogRow × ℤ) → List LogRow
entries_of (ok (rs, c)) = rs
entries_of (err e) = []

unfoldable pub handle_dashboard_logs :
    (Select → Logs.Rows) → Values → Result DashError (List LogRow)
unfolding limit_of entries_of
handle_dashboard_logs pool q =
    let host = get "host" q in
    if str_eq host ""
    then err host_required
    else ok (
        entries_of (
          Logs.query pool (record {
            host = host;
            level = "";
            from = pos 0;
            to = pos 0;
            q = "";
            limit = limit_of (get "limit" q);
            cursor = pos 0;
          })))

-- `writeJSON` of a handler's answer.
unfoldable pub dash_response : {F A : Type 0} → (A → Body F) → Result DashError A → Response F
dash_response f (err e) = record { status = 400; body = dash_error e }
dash_response f (ok a) = record { status = 200; body = f a }
