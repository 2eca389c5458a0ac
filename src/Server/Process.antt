-- ===== src/Server/Process.antt =====
-- The running server: the requests, the ticks of the tracker and of the evaluator, and the end.
-- What interleaves is an explicit list of these. A request that is served, a scan with its calls of
-- `onDown` and an evaluation are one step each.
use theminidog.Base.{
  ℕ, Bool, true, false, Option, none, some, List, [], ◌∷◌, ◌++◌, String, Time, Duration, Floats,
  map, if◌then◌else◌,
}
use theminidog.Storage.Metrics.{MetricSelect, QueryPoint, InsertMetric, Rows}
use theminidog.Storage.Logs as Logs
use theminidog.Storage.Logs.{InsertLog, Select}
use theminidog.Storage.Hosts.{HostTracker, scan}
use theminidog.Alerting.Evaluator.{
  Evaluator, MetricQuerier, NotificationEvent, evaluate, notify_all, notify_host_down,
}
use theminidog.Api.Responses.{Response}
use theminidog.Api.Router.{Backend, Request, serve}
use theminidog.Server.Start.{Server}

-- What a request meets beside the server's own state: the database, the clock, and the libraries
-- golang-jwt (at that time) and chi.
pub record World (F : Type 0) : Type 0 where
  pub exec_metrics : List (InsertMetric F) → ℕ → Bool
  pub exec_logs : List InsertLog → ℕ → Bool
  pub select_metrics : MetricSelect → Rows (QueryPoint F)
  pub select_logs : Select → Logs.Rows
  pub select_hosts : Time → Rows String
  pub ping : Bool
  pub parse_time : String → Option Time
  pub now : Time
  pub verify : String → String → Bool
  pub unrouted : Request F → Response F

-- `is_running` until the context of the signals is cancelled.
pub record Process (F : Type 0) : Type 0 where
  pub is_running : Bool
  pub evaluator : Option (Evaluator F)
  pub tracker : Option HostTracker

pub data Event (F : Type 0) : Type 0 where
  request : World F → Request F → Event F
  tracker_tick : Time → Event F
  evaluator_tick : MetricQuerier F → Time → Event F
  -- SIGINT, SIGTERM, or an error of the listener
  stop : Event F

-- What leaves the process: answers, calls of `onDown`, what the notifiers are called with, and the
-- two calls of `Server.Shutdown`.
pub data Output (F : Type 0) : Type 0 where
  answered : Response F → Output F
  reported_down : String → Output F
  notified : String → NotificationEvent F → Output F
  drained : Duration → Output F
  pool_closed : Output F

module _ {F : Type 0} where
  unfoldable pub notifiers_of : Option (Evaluator F) → List String
  notifiers_of none = []
  notifiers_of (some e) = e.notifiers

  unfoldable pub dispatch_events : List String → List (NotificationEvent F) → List (Output F)
  dispatch_events urls [] = []
  dispatch_events urls (ev ∷ evs) =
      map (λ (u, e). notified u e) (notify_all urls ev) ++ dispatch_events urls evs

  -- `Server.Shutdown`: the requests end first, within the timeout, then the pool is closed.
  unfoldable pub shutdown : Duration → List (Output F)
  shutdown timeout = drained timeout ∷ pool_closed ∷ []

  unfoldable pub launch : Server F → Process F
  launch srv = record { is_running = true; evaluator = srv.evaluator; tracker = srv.tracker }

module _ (fl : Floats) where
  open fl use {F}

  -- The router of the process.
  unfoldable pub backend : Server F → World F → Option (Evaluator F) → Backend F
  backend srv w evaluator = record {
    exec_metrics = w.exec_metrics;
    exec_logs = w.exec_logs;
    select_metrics = w.select_metrics;
    select_logs = w.select_logs;
    select_hosts = w.select_hosts;
    ping = w.ping;
    parse_time = w.parse_time;
    now = w.now;
    alerter = evaluator;
    secret = srv.secret;
    verify = w.verify;
    dash = srv.dash;
    unrouted = w.unrouted;
  }

  -- The closure `onDown`, for each host of a scan.
  unfoldable pub on_down : Time → Option (Evaluator F) → List String → List (Output F)
  unfolding dispatch_events notifiers_of
  on_down now e [] = []
  on_down now e (h ∷ hs) =
      reported_down h
      ∷ (dispatch_events (notifiers_of e) (notify_host_down fl now h e) ++ on_down now e hs)

  unfoldable pub evaluate_with :
      MetricQuerier F → Time → Option (Evaluator F) → Option (Evaluator F) × List (Output F)
  unfolding dispatch_events
  evaluate_with repo now none = (none, [])
  evaluate_with repo now (some e) =
      let (e', evs) = evaluate fl repo now e in (some e', dispatch_events e.notifiers evs)

  -- A tick of the tracker, with the calls of `onDown` that its scan makes.
  unfoldable pub scan_with :
      Time → Option (Evaluator F) → Option HostTracker → Option HostTracker × List (Output F)
  unfolding on_down
  scan_with now e tracker = let (t, down) = scan now tracker in (t, on_down now e down)

  unfoldable pub handle : Server F → Process F → Event F → Process F × List (Output F)
  unfolding backend scan_with evaluate_with shutdown
  handle srv p (request w r) =
      let (out, tracker) = serve fl (backend srv w p.evaluator) r p.tracker in
      (record p { tracker = tracker }, answered out ∷ [])
  handle srv p (tracker_tick now) =
      let (tracker, outs) = scan_with now p.evaluator p.tracker in
      (record p { tracker = tracker }, outs)
  handle srv p (evaluator_tick repo now) =
      let (e, outs) = evaluate_with repo now p.evaluator in (record p { evaluator = e }, outs)
  handle srv p stop = (record p { is_running = false }, shutdown srv.shutdown_timeout)

  -- Nothing more happens once the process has stopped.
  unfoldable pub step : Server F → Process F → Event F → Process F × List (Output F)
  unfolding handle
  step srv p ev = if p.is_running then handle srv p ev else (p, [])

  unfoldable pub run : Server F → Process F → List (Event F) → Process F × List (Output F)
  unfolding step
  run srv p [] = (p, [])
  run srv p (ev ∷ evs) =
      let (q, outs) = step srv p ev in let (r, later) = run srv q evs in (r, outs ++ later)
