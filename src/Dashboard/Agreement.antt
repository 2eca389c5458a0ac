-- ===== src/Dashboard/Agreement.antt =====
-- The series of the dashboard against the answers of internal/server/api/metrics.go.
use theminidog.Base.{
  ◌≡◌, refl, sym, ap, ◌∙◌, false, Option, none, some, List, [], ◌∷◌, String, Time, Duration, ◌-ℤ◌,
  ok, str_eq, str_eq_iff, lookup, arith, is_blank, map, All, Bool-cases, inl, inr,
}
use theminidog.Storage.Metrics as Metrics
use theminidog.Storage.Metrics.{MetricSelect, QueryPoint, Rows, validate}
use theminidog.Api.Responses.{Body, points, Response, Values, get, Series, write_error}
use theminidog.Api.Query.{get_or, query_params, parse_query, answer_points, handle_query}
use theminidog.Dashboard.{
  canonical_names, window_durations, series_params, points_of, series_from, window_of,
  handle_dashboard_metrics,
}
use theminidog.Dashboard.Windows.{series_params-IsAccepted}

-- The points of an answer, none where it is an error.
abbrev points_of_body : {F : Type 0} → Body F → List (QueryPoint F)
points_of_body (points h n b a ps) = ps
points_of_body _ = []

abbrev pub points_in : {F : Type 0} → Response F → List (QueryPoint F)
points_in r = points_of_body r.body

-- A request for one metric of a host, with the bucket and the function left to their defaults.
abbrev pub metric_values : String → String → String → String → Values
metric_values host from to name = ("host", host) ∷ ("name", name) ∷ ("from", from) ∷ ("to", to) ∷ []

-- The series that the API's answer makes.
abbrev pub api_series :
    {F : Type 0}
    → (MetricSelect → Rows (QueryPoint F))
    → (String → Option Time)
    → String
    → String
    → String
    → String
    → Series F
api_series pool parse_time host from to name = record {
  name = name;
  points = points_in (handle_query pool parse_time (metric_values host from to name));
}

module _ {F : Type 0} (pool : MetricSelect → Rows (QueryPoint F))
    (parse_time : String → Option Time) (now : Time) (host : String) (d : Duration)
    (from to : String) (starts : parse_time from ≡ some (now -ℤ d))
    (ends : parse_time to ≡ some now) where
  pub query_series :
      (name : String)
      → validate (series_params now host d name) ≡ none
      → points_in (handle_query pool parse_time (metric_values host from to name))
        ≡ points_of (Metrics.query pool (series_params now host d name))
  unfolding handle_query parse_query query_params get_or get lookup answer_points points_of
      write_error series_params
  query_series name accepted = ground (arith, starts, ends, accepted)

  series_from-api :
      (names : List String)
      → All (λ name. validate (series_params now host d name) ≡ none) names
      → series_from pool now host d names ≡ map (api_series pool parse_time host from to) names
  unfolding series_from
  series_from-api [] accepted = refl
  series_from-api (name ∷ names) (a, rest) =
      rw (query_series name a, series_from-api names rest) refl

  filled : is_blank host ≡ false → str_eq host "" ≡ false
  unfolding is_blank
  filled named = elim (Bool-cases (str_eq host "")) [
    | inr other ↦ other
    | inl same ↦ absurd (ground (arith, ap is_blank ((str_eq_iff host "").0 same), named))
  ]

  window_filled : (w : String) → lookup w window_durations ≡ some d → str_eq w "" ≡ false
  unfolding window_durations lookup
  window_filled w known = elim (Bool-cases (str_eq w "")) [
    | inr other ↦ other
    | inl same ↦
        let never : lookup "" window_durations ≡ some d =
          ap (λ x. lookup x window_durations) (sym ((str_eq_iff w "").0 same)) ∙ known in
        absurd (ground (arith, never))
  ]

  abbrev window_values : String → Values
  window_values w = ("host", host) ∷ ("window", w) ∷ []

  values_read :
      (w : String)
      → str_eq w "" ≡ false
      → (get "host" (window_values w) ≡ host) × (window_of (window_values w) ≡ w)
  unfolding window_of get lookup
  values_read w e = (refl, ground (arith, e))

  -- For a host that is not blank, a window of the dashboard's map, and two texts that parse to the
  -- start and the end of the window: the dashboard's answer has, for each of the nine metrics, the
  -- points with which GET /api/v1/metrics/query answers for that host, that metric and those
  -- times, and none where that answer is an error.
  pub handle_dashboard_metrics-query :
      (w : String)
      → is_blank host ≡ false
      → lookup w window_durations ≡ some d
      → handle_dashboard_metrics pool now (("host", host) ∷ ("window", w) ∷ [])
        ≡ ok (record {
          host = host;
          window = w;
          series = map (api_series pool parse_time host from to) canonical_names;
        })
  unfolding handle_dashboard_metrics
  handle_dashboard_metrics-query w named known =
      let same : series_from pool now host d canonical_names
          ≡ map (api_series pool parse_time host from to) canonical_names =
        series_from-api canonical_names (series_params-IsAccepted now host w d named known) in
      let read = values_read w (window_filled w known) in
      rw (read.0, read.1, filled named, known, read.0, read.1, same) refl
