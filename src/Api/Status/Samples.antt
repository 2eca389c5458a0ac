-- ===== src/Api/Status/Samples.antt =====
-- The samples of the Prometheus page against the answers of the query handler.
use theminidog.Base.{
  ◌≡◌, refl, ap, ◌∙◌, true, false, Option, none, some, List, [], ◌∷◌, String, Time, ◌-ℤ◌, seconds,
  str_eq, str_eq_iff, lookup, arith, is_blank, contains, if◌then◌else◌,
}
use theminidog.Storage.Metrics.{MetricSelect, QueryPoint, QueryError, Rows, hosts, stored_names}
use theminidog.Api.Responses.{Body, families, Family, Response}
use theminidog.Api.Query.{handle_query}
use theminidog.Api.Status.{latest, prom_rows, prom_families, prom_response, handle_prometheus}
use theminidog.Dashboard.{series_params, points_of}
use theminidog.Dashboard.Windows.{series_accepted}
use theminidog.Dashboard.Agreement.{points_in, metric_values, query_series}

-- The sample of a metric and a host on the page.
unfoldable pub sample : {F : Type 0} → String → String → List (Family F) → Option (QueryPoint F)
sample name h [] = none
sample name h (f ∷ fs) = if str_eq f.name name then lookup h f.rows else sample name h fs

unfoldable pub page_sample : {F : Type 0} → String → String → Body F → Option (QueryPoint F)
unfolding sample
page_sample name h (families fs) = sample name h fs
page_sample name h _ = none

abbrev pub first : {F : Type 0} → List (QueryPoint F) → Option (QueryPoint F)
first [] = none
first (p ∷ ps) = some p

module _ {F : Type 0} (pool : MetricSelect → Rows (QueryPoint F)) (now : Time) where
  lookup-prom_rows :
      (name h : String) (hs : List String)
      → lookup h (prom_rows pool now name hs)
        ≡ (if contains h hs then latest pool now name h else none)
  unfolding lookup prom_rows contains
  lookup-prom_rows name h [] = refl
  lookup-prom_rows name h (k ∷ ks) = ground (arith, str_eq_iff k h, lookup-prom_rows name h ks)

  sample-prom_families :
      (name h : String) (hs names : List String)
      → sample name h (prom_families pool now hs names)
        ≡ (if contains name names then lookup h (prom_rows pool now name hs) else none)
  unfolding sample prom_families contains lookup
  sample-prom_families name h hs [] = refl
  sample-prom_families name h hs (n ∷ ns) =
      ground (arith, str_eq_iff n name, sample-prom_families name h hs ns)

  latest-query :
      (parse_time : String → Option Time) (from to name h : String)
      → parse_time from ≡ some (now -ℤ seconds 120)
      → parse_time to ≡ some now
      → is_blank h ≡ false
      → contains name stored_names ≡ true
      → latest pool now name h
        ≡ first (points_in (handle_query pool parse_time (metric_values h from to name)))
  unfolding latest series_params points_of
  latest-query parse_time from to name h starts ends named known =
      let accepted =
        series_accepted now h (seconds 120) name named (omega arith) (omega arith) known in
      let answer =
        query_series pool parse_time now h (seconds 120) from to starts ends name accepted in
      ground (arith, answer)

  response-sample :
      (name h : String) (hs : List String)
      → contains name stored_names ≡ true
      → page_sample name h (prom_response pool now hs none).body
        ≡ (if contains h hs then latest pool now name h else none)
  unfolding page_sample prom_response
  response-sample name h [] known = unfold contains in refl
  response-sample name h (k ∷ ks) known = ground (
    arith,
    known,
    sample-prom_families name h (k ∷ ks) stored_names,
    lookup-prom_rows name h (k ∷ ks),
  )

  -- Where the store lists the active hosts, for a host that is not blank, a metric of the store and
  -- two texts that parse to the start and the end of the last two minutes: the Prometheus page has
  -- for an active host the first point with which GET /api/v1/metrics/query answers for that host,
  -- that metric and those times, and no sample where that answer has none or is an error; and it has
  -- none for a host that is not active.
  pub handle_prometheus-query :
      (host_pool : Time → Rows String) (hs : List String) (parse_time : String → Option Time)
      (from to name h : String)
      → hosts host_pool now (seconds 120) ≡ (hs, none)
      → parse_time from ≡ some (now -ℤ seconds 120)
      → parse_time to ≡ some now
      → is_blank h ≡ false
      → contains name stored_names ≡ true
      → page_sample name h (handle_prometheus host_pool pool now).body ≡ (
          if contains h hs
          then first (points_in (handle_query pool parse_time (metric_values h from to name)))
          else none)
  unfolding handle_prometheus
  handle_prometheus-query host_pool hs parse_time from to name h found starts ends named known =
      let listed : handle_prometheus host_pool pool now ≡ prom_response pool now hs none =
        ap (λ (r : List String × Option QueryError). prom_response pool now r.0 r.1) found in
      ap (λ (r : Response F). page_sample name h r.body) listed
      ∙ response-sample name h hs known
      ∙ ap (λ o. if contains h hs then o else none)
          (latest-query parse_time from to name h starts ends named known)
