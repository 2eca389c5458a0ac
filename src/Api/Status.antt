-- ===== src/Api/Status.antt =====
-- internal/server/api/health.go, hosts.go, alerts.go and prometheus.go: the public handlers. A map
-- from a metric name to its Prometheus name works on the bytes of ASCII names.
pub mod Samples
pub mod Page
pub mod Scrape
use theminidog.Base.{
  Bool, ◌||◌, Option, none, some, List, [], ◌∷◌, String, Time, ◌-ℤ◌, seconds, ◌==◌, if◌then◌else◌,
  ok, err,
}
use Prim.Native.Char.{Char, code}
use Prim.Native.String.{◌++◌ as text_append}
use theminidog.Storage.Hosts.{HostTracker, all}
use theminidog.Storage.Metrics.{
  MetricSelect, QueryPoint, Rows, QueryError, hosts, query, stored_names,
}
use theminidog.Alerting.Evaluator.{Evaluator, active_alerts}
use theminidog.Api.Responses.{
  db_unavailable, ok_text, empty, host_list, alert_list, families, Family, Response, write_error,
}

unfoldable pub handle_healthz : {F : Type 0} → Response F
handle_healthz = record { status = 200; body = ok_text }

-- `ping` says whether `SELECT 1` succeeds.
unfoldable pub handle_readyz : {F : Type 0} → Bool → Response F
unfolding write_error
handle_readyz ping =
    if ping then record { status = 200; body = ok_text } else write_error 503 db_unavailable

unfoldable pub handle_hosts : {F : Type 0} → Time → Option HostTracker → Response F
handle_hosts now tracker = record { status = 200; body = host_list (all now tracker) }

unfoldable pub handle_alerts : {F : Type 0} → Option (Evaluator F) → Response F
handle_alerts a = record { status = 200; body = alert_list (active_alerts a) }

-- Dots and hyphens become underscores.
unfoldable pub prom_char : Char → Char
prom_char c = if code c == 46 || code c == 45 then "_" else c

unfoldable pub prom_chars : String → String
unfolding prom_char
prom_chars String.[] = String.[]
prom_chars (String.◌∷◌ c s) = String.◌∷◌ (prom_char c) (prom_chars s)

unfoldable pub prom_metric_name : String → String
unfolding prom_chars
prom_metric_name name = text_append "miniobserv_" (prom_chars name)

-- The latest point of a host, `none` where the query fails or has no data.
unfoldable pub latest :
    {F : Type 0}
    → (MetricSelect → Rows (QueryPoint F))
    → Time
    → String
    → String
    → Option (QueryPoint F)
latest pool now name host =
    elim (query pool (record {
      host = host;
      name = name;
      from = now -ℤ seconds 120;
      to = now;
      bucket = "1m";
      agg = "avg";
    })) [ err e ↦ none | ok [] ↦ none | ok (p ∷ ps) ↦ some p ]

unfoldable pub prom_rows :
    {F : Type 0}
    → (MetricSelect → Rows (QueryPoint F))
    → Time
    → String
    → List String
    → List (String × QueryPoint F)
unfolding latest
prom_rows pool now name [] = []
prom_rows pool now name (h ∷ hs) =
    let rest = prom_rows pool now name hs in
    elim (latest pool now name h) [ none ↦ rest | some p ↦ (h, p) ∷ rest ]

-- A metric without points is left out.
unfoldable pub prom_families :
    {F : Type 0}
    → (MetricSelect → Rows (QueryPoint F))
    → Time
    → List String
    → List String
    → List (Family F)
unfolding prom_rows prom_metric_name
prom_families pool now hs [] = []
prom_families pool now hs (name ∷ names) =
    let rest = prom_families pool now hs names in
    elim (prom_rows pool now name hs) [
      | [] ↦ rest
      | r ∷ rs ↦ record { prom_name = prom_metric_name name; name = name; rows = r ∷ rs } ∷ rest
    ]

-- The names of the handler are those of the store, in their order.
unfoldable pub prom_response :
    {F : Type 0}
    → (MetricSelect → Rows (QueryPoint F))
    → Time
    → List String
    → Option QueryError
    → Response F
unfolding prom_families
prom_response pool now hs (some e) = record { status = 200; body = empty }
prom_response pool now [] none = record { status = 200; body = empty }
prom_response pool now (h ∷ hs) none = record {
  status = 200;
  body = families (prom_families pool now (h ∷ hs) stored_names);
}

unfoldable pub handle_prometheus :
    {F : Type 0} → (Time → Rows String) → (MetricSelect → Rows (QueryPoint F)) → Time → Response F
unfolding prom_response
handle_prometheus host_pool pool now =
    let (hs, e) = hosts host_pool now (seconds 120) in prom_response pool now hs e
