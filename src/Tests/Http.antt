-- ===== src/Tests/Http.antt =====
-- internal/server/api: witnesses and tests.
use theminidog.Base.{
  ℕ, ◌≡◌, refl, Bool, true, false, Option, none, some, List, [], ◌∷◌, String, str_eq, seconds, Time,
  if◌then◌else◌, is_blank, contains, ◌≢◌, arith, sym, ap, ◌∙◌, inl, inr, Bool-cases, codes,
  codes-append, str_eq_iff,
}
use theminidog.Model.Metric.{MetricBatch, validate_batch, validate_metric, has_empty_label}
use theminidog.Storage.Hosts.{HostTracker, new_host_tracker, heartbeat}
use theminidog.Storage.Metrics.{
  insert, InsertMetric, MetricSelect, Rows, rows, QueryPoint, queue, refused, select_text,
}
use theminidog.Storage.Batch.{exec_from}
use theminidog.Storage.Logs as Logs
use theminidog.Storage.Logs.{LogQueryParams, LogRow, Select}
use theminidog.Api.Responses.{Values, error, unauthorized, ingested, write_error, empty}
use theminidog.Api.Ingest.{handle_ingest}
use theminidog.Api.Ingest.Outcomes.{handle_ingest_answers, IsAnswered}
use theminidog.Api.Query.{handle_query, handle_query_logs, next_cursor}
use theminidog.Api.Query.Bounds.{Listed, handle_query-Listed, handle_query_logs_bounds, IsPaged}
use theminidog.Api.Router.{Request, Backend, post_method, serve, authorized, route}
use theminidog.Api.Router.Access.{post_metrics, serve_denied, serve_tracker, IsAccounted}
use theminidog.Storage.Logs.{InsertLog}
use theminidog.Model.Log.{LogBatch}
use theminidog.Tests.Numbers.{numbers}

unfoldable pub http_code : Unit {0}
unfolding handle_ingest handle_query handle_query_logs serve authorized heartbeat new_host_tracker
    validate_batch next_cursor write_error queue
http_code = tt

abbrev pub two_metrics : MetricBatch ℕ
two_metrics = record {
  host = "web-1";
  metrics =
      record {
        time = seconds 5;
        host = "web-1";
        name = "cpu.usage_pct";
        value = 40;
        labels = ("core", "total") ∷ [];
      }
      ∷ record { time = seconds 5; host = "web-1"; name = "mem.used_pct"; value = 60; labels = [] }
      ∷ [];
}

abbrev pub tracker : Option HostTracker
tracker =
    some (record { hosts = []; reported = []; stale_after = seconds 20; down_after = seconds 50 })

-- The token is accepted where it is the secret itself.
abbrev pub backend : Backend ℕ
backend = record {
  exec_metrics = λ b i. true;
  exec_logs = λ b i. true;
  select_metrics = λ s. refused;
  select_logs = λ s. Logs.refused;
  select_hosts = λ t. refused;
  ping = true;
  parse_time = λ s. none;
  now = seconds 7;
  alerter = none;
  secret = "a-long-secret-16";
  verify = str_eq;
  dash = false;
  unrouted = λ r. record { status = 404; body = empty };
}

abbrev pub post : String → Request ℕ
post header = record {
  method = post_method;
  path = "/api/v1/metrics";
  authorization = header;
  query = [];
  decoded_metrics = some two_metrics;
  decoded_logs = none;
}

serve_denied_example :
    serve numbers backend (post "Bearer guess") tracker
    ≡ (record { status = 401; body = error unauthorized }, tracker)
unfolding authorized
serve_denied_example = serve_denied numbers backend (post "Bearer guess") tracker post_metrics refl

serve_test :
    serve numbers backend (post "Bearer a-long-secret-16") tracker
    ≡ (record { status = 202; body = ingested 2 }, heartbeat (seconds 7) "web-1" tracker)
unfolding serve route handle_ingest validate_batch is_blank validate_metric contains has_empty_label
    insert exec_from
serve_test = refl

serve_tracker_example :
    IsAccounted numbers backend
      (post "Bearer a-long-secret-16")
      tracker
      (serve numbers backend (post "Bearer a-long-secret-16") tracker)
serve_tracker_example = serve_tracker numbers backend (post "Bearer a-long-secret-16") tracker

abbrev all_succeed : List (InsertMetric ℕ) → ℕ → Bool
all_succeed b i = true

handle_ingest_answers_example :
    IsAnswered numbers all_succeed
      (seconds 7)
      tracker
      (some two_metrics)
      (handle_ingest numbers all_succeed (seconds 7) tracker (some two_metrics))
handle_ingest_answers_example =
    handle_ingest_answers numbers all_succeed (seconds 7) tracker (some two_metrics)

abbrev any_time : String → Option Time
any_time s = if str_eq s "2026-01-02T00:00:00Z" then some (seconds 86_400) else some (seconds 3_600)

abbrev cpu_values : Values
cpu_values =
    ("host", "web-1")
    ∷ ("name", "cpu.usage_pct")
    ∷ ("to", "2026-01-02T00:00:00Z")
    ∷ ("agg", "max")
    ∷ []

abbrev answers : MetricSelect → Rows (QueryPoint ℕ)
answers s = rows (some (record { time = s.from; value = 7 }) ∷ []) false

-- A second pool, which refuses one text that is not listed.
abbrev deletes : MetricSelect
deletes = record {
  sql = "DELETE FROM metrics";
  host = "web-1";
  name = "cpu.usage_pct";
  from = seconds 0;
  to = seconds 5;
}

abbrev guarded : MetricSelect → Rows (QueryPoint ℕ)
guarded s = if str_eq s.sql "DELETE FROM metrics" then refused else answers s

guarded_test : (guarded deletes ≡ refused) × (answers deletes ≢ refused)
guarded_test = (refl, λ e. cc)

-- A listed text begins with an empty line.
Listed-guarded : (sql : String) → Listed sql → str_eq sql "DELETE FROM metrics" ≡ false
unfolding select_text
Listed-guarded sql (k, j, l, a, bucket, agg, text) =
    elim (Bool-cases (str_eq sql "DELETE FROM metrics")) [
      | inr other ↦ other
      | inl same ↦
          let shown = ap codes (sym text ∙ (str_eq_iff sql "DELETE FROM metrics").0 same) in
          absurd (ground (arith, sym (codes-append _ _) ∙ shown))
    ]

handle_query-Listed_example :
    handle_query answers any_time cpu_values ≡ handle_query guarded any_time cpu_values
handle_query-Listed_example =
    handle_query-Listed answers guarded any_time cpu_values
      (λ s known. rw (Listed-guarded s.sql known) refl)

abbrev log_values : Values
log_values = ("host", "web-1") ∷ ("limit", "5000") ∷ []

abbrev one_log : Select → Logs.Rows
one_log s = Logs.rows [] false

handle_query_logs_bounds_example :
    IsPaged {F = ℕ} one_log (handle_query_logs one_log any_time log_values)
handle_query_logs_bounds_example = handle_query_logs_bounds one_log any_time log_values

-- Another scheme, no token, and another token.
authorized_test :
    (authorized str_eq "secret" "Basic secret" ≡ false)
    × (authorized str_eq "secret" "Bearer " ≡ false)
    × (authorized str_eq "secret" "Bearer guess" ≡ false)
unfolding authorized
authorized_test = (refl, refl, refl)

abbrev one_entry : Option LogBatch
one_entry = some (record {
  host = "web-1";
  entries =
      record {
        time = seconds 5;
        host = "web-1";
        path = "app.log";
        level = "info";
        message = 65 ∷ [];
      }
      ∷ [];
})

abbrev log_fails : List InsertLog → ℕ → Bool
log_fails b i = false
