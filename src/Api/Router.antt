-- ===== src/Api/Router.antt =====
-- internal/server/api/middleware.go and router.go. The library golang-jwt is an argument:
-- `verify secret token` says that the token parses with the method HS256 under the secret. The
-- router of the library chi is a table of exact routes, and its answer to other requests is an
-- argument. Recoverer, RequestID and Timeout only add to these answers and are left out.
pub mod Access
pub mod Bearer
use Prim.Native.Char.{code}
use theminidog.Base.{
  ◌==◌, ℕ, ◌≡◌, refl, Bool, true, false, not, Option, none, some, List, [], ◌∷◌, String, Time,
  Floats, str_eq, if◌then◌else◌,
}
use theminidog.Model.Metric.{MetricBatch}
use theminidog.Model.Log.{LogBatch}
use theminidog.Storage.Metrics.{MetricSelect, QueryPoint, InsertMetric, Rows}
use theminidog.Storage.Logs as Logs
use theminidog.Storage.Logs.{InsertLog, Select}
use theminidog.Storage.Hosts.{HostTracker}
use theminidog.Alerting.Evaluator.{Evaluator}
use theminidog.Api.Responses.{
  unauthorized, Response, write_error, Values, dash_page, dash_metrics, dash_logs,
}
use theminidog.Dashboard.{page_data, handle_dashboard_metrics, handle_dashboard_logs, dash_response}
use theminidog.Api.Ingest.{handle_ingest, handle_ingest_logs}
use theminidog.Api.Query.{handle_query, handle_query_logs}
use theminidog.Api.Status.{
  handle_healthz, handle_readyz, handle_hosts, handle_alerts, handle_prometheus,
}

pub data Method : Type 0 where
  get_method post_method : Method
  other_method : String → Method

-- `decoded_metrics` and `decoded_logs` are what the body decodes to.
pub record Request (F : Type 0) : Type 0 where
  pub method : Method
  pub path : String
  pub authorization : String
  pub query : Values
  pub decoded_metrics : Option (MetricBatch F)
  pub decoded_logs : Option LogBatch

-- The pages of the dashboard are under internal/server/dashboard.
pub data Page : Type 0 where
  dashboard dashboard_metrics dashboard_logs : Page

pub data Route : Type 0 where
  healthz readyz metrics_text alerts hosts : Route
  page : Page → Route
  ingest query ingest_logs query_logs : Route

-- The routes of GET; `dash` says whether the dashboard is there.
unfoldable pub get_route : Bool → String → Option Route
get_route dash path =
    if str_eq path "/healthz"
    then some healthz
    else if str_eq path "/readyz"
    then some readyz
    else if str_eq path "/"
    then (if dash then some (page dashboard) else none)
    else if str_eq path "/api/v1/dashboard/metrics"
    then (if dash then some (page dashboard_metrics) else none)
    else if str_eq path "/api/v1/dashboard/logs"
    then (if dash then some (page dashboard_logs) else none)
    else if str_eq path "/metrics"
    then some metrics_text
    else if str_eq path "/api/v1/alerts"
    then some alerts
    else if str_eq path "/api/v1/hosts"
    then some hosts
    else if str_eq path "/api/v1/metrics/query"
    then some query
    else if str_eq path "/api/v1/logs/query"
    then some query_logs
    else none

unfoldable pub post_route : String → Option Route
post_route path =
    if str_eq path "/api/v1/metrics"
    then some ingest
    else if str_eq path "/api/v1/logs"
    then some ingest_logs
    else none

unfoldable pub route : Bool → Method → String → Option Route
unfolding get_route post_route
route dash get_method path = get_route dash path
route dash post_method path = post_route path
route dash (other_method m) path = none

-- `strings.TrimPrefix(s, p)`, `none` where `p` is no prefix of `s`.
unfoldable pub strip_prefix : String → String → Option String
strip_prefix String.[] s = some s
strip_prefix (String.◌∷◌ c p) String.[] = none
strip_prefix (String.◌∷◌ c p) (String.◌∷◌ d s) =
    let rest = strip_prefix p s in if code c == code d then rest else none

-- Whether `JWTMiddleware` calls the next handler.
unfoldable pub authorized : (String → String → Bool) → String → String → Bool
unfolding strip_prefix
authorized verify secret header = elim (strip_prefix "Bearer " header) [
  | none ↦ false
  | some token ↦ if str_eq token "" then false else verify secret token
]

-- What the server stands on: the database, the clock, the evaluator and the secret.
pub record Backend (F : Type 0) : Type 0 where
  pub exec_metrics : List (InsertMetric F) → ℕ → Bool
  pub exec_logs : List InsertLog → ℕ → Bool
  pub select_metrics : MetricSelect → Rows (QueryPoint F)
  pub select_logs : Select → Logs.Rows
  pub select_hosts : Time → Rows String
  pub ping : Bool
  pub parse_time : String → Option Time
  pub now : Time
  pub alerter : Option (Evaluator F)
  pub secret : String
  pub verify : String → String → Bool
  pub dash : Bool
  pub unrouted : Request F → Response F

module _ (fl : Floats) where
  open fl use {F}

  -- The handlers behind the middleware.
  unfoldable pub protect :
      Backend F
      → Request F
      → Option HostTracker
      → Response F × Option HostTracker
      → Response F × Option HostTracker
  unfolding authorized write_error
  protect b r tracker next =
      if authorized b.verify b.secret r.authorization
      then next
      else (write_error 401 unauthorized, tracker)

  -- The handlers of the dashboard.
  unfoldable pub handle_page : Backend F → Request F → Option HostTracker → Page → Response F
  unfolding page_data handle_dashboard_metrics handle_dashboard_logs dash_response
  handle_page b r t dashboard = record {
    status = 200;
    body = dash_page (page_data b.select_hosts b.now b.alerter t);
  }
  handle_page b r t dashboard_metrics =
      dash_response dash_metrics (handle_dashboard_metrics b.select_metrics b.now r.query)
  handle_page b r t dashboard_logs =
      dash_response dash_logs (handle_dashboard_logs b.select_logs r.query)

  unfoldable pub dispatch :
      Backend F → Request F → Option HostTracker → Route → Response F × Option HostTracker
  unfolding protect handle_page
  dispatch b r t healthz = (handle_healthz, t)
  dispatch b r t readyz = (handle_readyz b.ping, t)
  dispatch b r t metrics_text = (handle_prometheus b.select_hosts b.select_metrics b.now, t)
  dispatch b r t alerts = (handle_alerts b.alerter, t)
  dispatch b r t hosts = (handle_hosts b.now t, t)
  dispatch b r t (page p) = (handle_page b r t p, t)
  dispatch b r t ingest = protect b r t (handle_ingest fl b.exec_metrics b.now t r.decoded_metrics)
  dispatch b r t query = protect b r t (handle_query b.select_metrics b.parse_time r.query, t)
  dispatch b r t ingest_logs = protect b r t (handle_ingest_logs b.exec_logs r.decoded_logs, t)
  dispatch b r t query_logs =
      protect b r t (handle_query_logs b.select_logs b.parse_time r.query, t)

  unfoldable pub serve :
      Backend F → Request F → Option HostTracker → Response F × Option HostTracker
  unfolding dispatch
  serve b r t = elim (route b.dash r.method r.path) [
    | none ↦ (b.unrouted r, t)
    | some x ↦ dispatch b r t x
  ]
