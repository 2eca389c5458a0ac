-- ===== src/Api/Router/Access.antt =====
-- Which requests the router lets through, and which change the tracker.
use theminidog.Base.{
  ◌≡◌, ◌≢◌, if◌then◌else◌, refl, ◌⊎◌, inl, inr, Bool, true, false, Option, none, some, String,
  Floats, str_eq_iff, length, arith, Bool-cases, Option-cases, ap, ◌∙◌,
}
use theminidog.Storage.Hosts.{HostTracker, heartbeat}
use theminidog.Model.Metric.{MetricBatch}
use theminidog.Api.Responses.{unauthorized, error, ingested, Response, write_error}
use theminidog.Api.Ingest.Outcomes.{IsGood, handle_ingest_answers}
use theminidog.Api.Router.{
  Method, get_method, post_method, other_method, Request, Page, dashboard, dashboard_metrics,
  dashboard_logs, Route, Backend, route, get_route, post_route, authorized, protect, dispatch,
  serve, healthz, readyz, metrics_text, alerts, hosts, page, ingest, query, ingest_logs, query_logs,
}

-- The endpoints that the README lists as protected.
pub data Protected : Method → String → Type 0 where
  post_metrics : Protected post_method "/api/v1/metrics"
  post_logs : Protected post_method "/api/v1/logs"
  get_metrics : Protected get_method "/api/v1/metrics/query"
  get_logs : Protected get_method "/api/v1/logs/query"

module _ (fl : Floats) where
  open fl use {F}

  module _ (b : Backend F) (r : Request F) (t : Option HostTracker) where
    -- The route of the endpoint, whether or not the dashboard is there.
    Protected-route :
        {m : Method} {p : String}
        → Protected m p
        → (dash : Bool)
        → (x : Route) × (route dash m p ≡ some x)
          × ((authorized b.verify b.secret r.authorization ≡ false)
              → dispatch fl b r t x ≡ (record { status = 401; body = error unauthorized }, t))
    unfolding route dispatch protect write_error
    Protected-route post_metrics dash = (ingest, refl, λ e. ground (arith, e))
    Protected-route post_logs dash = (ingest_logs, refl, λ e. ground (arith, e))
    Protected-route get_metrics dash = (query, refl, λ e. ground (arith, e))
    Protected-route get_logs dash = (query_logs, refl, λ e. ground (arith, e))

    -- A request to one of the four protected endpoints whose Authorization header does not carry
    -- an accepted token is answered 401, and leaves the tracker as it was.
    pub serve_denied :
        Protected r.method r.path
        → authorized b.verify b.secret r.authorization ≡ false
        → serve fl b r t ≡ (record { status = 401; body = error unauthorized }, t)
    unfolding serve
    serve_denied at e =
        let (x, there, denied) = Protected-route at b.dash in ground (arith, there, denied e)

    if-Other :
        (c : Bool) (x y : Option Route)
        → x ≢ some ingest
        → y ≢ some ingest
        → (if c then x else y) ≢ some ingest
    if-Other true x y h k = h
    if-Other false x y h k = k

    dash-Other : (dash : Bool) (p : Page) → (if dash then some (page p) else none) ≢ some ingest
    dash-Other true p = λ e. cc
    dash-Other false p = λ e. cc

    get_route-Other : (dash : Bool) (p : String) → get_route dash p ≢ some ingest
    unfolding get_route
    get_route-Other dash p =
        if-Other _ (some healthz) _ (λ e. cc)
          (if-Other _ (some readyz) _ (λ e. cc)
            (if-Other _ _ _ (dash-Other dash dashboard) (
              if-Other _ _ _ (dash-Other dash dashboard_metrics) (
                if-Other _ _ _ (dash-Other dash dashboard_logs) (
                  if-Other _ (some metrics_text) _ (λ e. cc)
                    (if-Other _ (some alerts) _ (λ e. cc)
                      (if-Other _ (some hosts) _ (λ e. cc)
                        (if-Other _ (some query) _ (λ e. cc)
                          (if-Other _ (some query_logs) none (λ e. cc) (λ e. cc))))))))))

    -- Only one endpoint leads to the ingestion of metrics.
    route_ingest :
        (dash : Bool) (m : Method) (p : String)
        → route dash m p ≡ some ingest
        → (m ≡ post_method) × (p ≡ "/api/v1/metrics")
    unfolding route post_route
    route_ingest dash get_method p e = absurd (get_route-Other dash p e)
    route_ingest dash post_method p e = ground (arith, str_eq_iff p "/api/v1/metrics")
    route_ingest dash (other_method m) p e = absurd (ground arith)

    -- The other routes leave the tracker as it is.
    dispatch_tracker : (x : Route) → (x ≡ ingest) ⊎ ((dispatch fl b r t x).1 ≡ t)
    unfolding dispatch protect
    dispatch_tracker healthz = inr refl
    dispatch_tracker readyz = inr refl
    dispatch_tracker metrics_text = inr refl
    dispatch_tracker alerts = inr refl
    dispatch_tracker hosts = inr refl
    dispatch_tracker (page p) = inr refl
    dispatch_tracker ingest = inl refl
    dispatch_tracker query = inr (ground arith)
    dispatch_tracker ingest_logs = inr (ground arith)
    dispatch_tracker query_logs = inr (ground arith)

    -- The tracker is left as it is, or the request is an ingestion that is allowed and accepted.
    abbrev pub IsAccounted : Response F × Option HostTracker → Type 0
    IsAccounted out =
        (out.1 ≡ t)
        ⊎ ((r.method ≡ post_method)
            × (r.path ≡ "/api/v1/metrics")
            × (authorized b.verify b.secret r.authorization ≡ true)
            × ((batch : MetricBatch F) × (r.decoded_metrics ≡ some batch)
                × IsGood fl batch
                × (out ≡ (
                  record { status = 202; body = ingested (length batch.metrics) },
                  heartbeat b.now batch.host t,
                ))))

    -- Whatever the request: the router leaves the host tracker as it was, or the request is a POST
    -- to /api/v1/metrics with an accepted token whose batch is well formed, it is answered 202
    -- with the size of the batch, and the tracker has a heartbeat of the batch's host and no other
    -- change.
    pub serve_tracker : IsAccounted (serve fl b r t)
    unfolding serve dispatch protect
    serve_tracker = elim (Option-cases (route b.dash r.method r.path)) [
      | inl e ↦ inl (ground (arith, e))
      | inr (x, e) ↦ elim (dispatch_tracker x) [
        | inr same ↦ inl (ground (arith, e, same))
        | inl is ↦
            let (post, there) = route_ingest b.dash r.method r.path (e ∙ ap some is) in
            elim (Bool-cases (authorized b.verify b.secret r.authorization)) [
              | inr refused ↦ inl (ground (arith, e, is, refused))
              | inl allowed ↦
                  elim (handle_ingest_answers fl b.exec_metrics b.now t r.decoded_metrics) [
                    | inl (batch, decoded, good, all, answer) ↦ inr (
                      post,
                      there,
                      allowed,
                      (batch, decoded, good, ground (arith, e, is, allowed, answer)),
                    )
                    | inr (inl (batch, decoded, good, failing, answer)) ↦
                        inl (ground (arith, e, is, allowed, answer))
                    | inr (inr (bad, (f, answer))) ↦ inl (ground (arith, e, is, allowed, answer))
                  ]
            ]
      ]
    ]
