-- ===== src/Api/Responses.antt =====
-- internal/server/api: what the handlers write. A body is the value that is encoded; the text of
-- an error is its kind, with the error that it quotes.
use theminidog.Base.{ℕ, Option, none, some, List, String, ℤ, Map, lookup}
use theminidog.Model.Metric.{BatchError as MetricBatchError}
use theminidog.Model.Log.{BatchError as LogBatchError}
use theminidog.Storage.Metrics.{QueryPoint, ParamsError}
use theminidog.Storage.Logs.{LogRow}
use theminidog.Storage.Hosts.{HostStatus}
use theminidog.Alerting.Evaluator.{Alert}

-- The argument of `writeError`.
pub data Failure : Type 0 where
  unauthorized invalid_json empty_metrics batch_too_large storage_error query_error db_unavailable :
      Failure
  invalid_from invalid_to invalid_limit invalid_cursor invalid_level : Failure
  invalid_metrics : MetricBatchError → Failure
  invalid_logs : LogBatchError → Failure
  invalid_params : ParamsError → Failure

-- A series of points of one metric.
pub record Series (F : Type 0) : Type 0 where
  pub name : String
  pub points : List (QueryPoint F)

-- The latest points of one metric in the Prometheus format: its names, then the hosts.
pub record Family (F : Type 0) : Type 0 where
  pub prom_name : String
  pub name : String
  pub rows : List (String × QueryPoint F)

-- The data of the dashboard's page, which the template is given.
pub record PageData (F : Type 0) : Type 0 where
  pub hosts : List String
  pub host_statuses : List HostStatus
  pub alerts : List (Alert F)
  pub refresh : ℕ

-- The errors of the dashboard, and its answer for metrics.
pub data DashError : Type 0 where
  host_required invalid_window : DashError

pub record DashMetrics (F : Type 0) : Type 0 where
  pub host : String
  pub window : String
  pub series : List (Series F)

pub data Body (F : Type 0) : Type 0 where
  error : Failure → Body F
  ingested : ℕ → Body F
  points : String → String → String → String → List (QueryPoint F) → Body F
  log_page : List LogRow → Option ℤ → Body F
  ok_text empty : Body F
  host_list : List HostStatus → Body F
  alert_list : List (Alert F) → Body F
  families : List (Family F) → Body F
  dash_page : PageData F → Body F
  dash_error : DashError → Body F
  dash_metrics : DashMetrics F → Body F
  dash_logs : List LogRow → Body F

pub record Response (F : Type 0) : Type 0 where
  pub status : ℕ
  pub body : Body F

-- `writeError`
unfoldable pub write_error : {F : Type 0} → ℕ → Failure → Response F
write_error status f = record { status = status; body = error f }

-- `r.URL.Query()`, and its `Get`: the empty text where the key is missing.
abbrev pub Values : Type 0
Values = Map String

unfoldable pub get : String → Values → String
get k q = elim (lookup k q) [ none ↦ "" | some v ↦ v ]
