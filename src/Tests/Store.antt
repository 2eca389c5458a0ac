-- ===== src/Tests/Store.antt =====
-- internal/server/storage: a table of logs with its pool, and what the queries answer.
use theminidog.Base.{
  ℕ, ◌≡◌, refl, Bool, false, Time, str_eq, if◌then◌else◌, Option, none, some, List, [], ◌∷◌, String,
  ℤ, pos, take, keep_if, map, seconds, atoi, arith, ok, lookup, is_blank, contains, sub, ◌-ℤ◌, ◌+ℤ◌,
}
use theminidog.Storage.Logs.{
  LogQueryParams, LogRow, Select, Rows, refused, rows, num, build, query, on_rows,
}
use theminidog.Storage.Logs.Answers.{arg_at, all_hold, wanted, Runs}
use theminidog.Storage.Logs.Paging.{pages}
use theminidog.Storage.Logs as Logs
use theminidog.Api.Responses.{Values, get}
use theminidog.Api.Query.{parse_log_query}
use theminidog.Api.Query.Cursors.{http_pages, http_pages-all}
use theminidog.Storage.Metrics as Metrics
use theminidog.Storage.Metrics.{
  QueryParams, MetricSelect, QueryPoint, select, select_text, valid_buckets, valid_aggs,
}
use theminidog.Storage.Metrics.Params.{select-validated}
use theminidog.Dashboard.{canonical_names, window_durations, handle_dashboard_metrics}
use theminidog.Dashboard.Agreement.{api_series, handle_dashboard_metrics-query}
use theminidog.Alerting.Notifications.{NotificationItem}

store_code : Unit {0}
unfolding build query all_hold wanted pages Metrics.validate select valid_buckets valid_aggs lookup
store_code = tt

abbrev row : ℕ → String → LogRow
row n level = record {
  id = pos n;
  time = seconds n;
  host = "web-1";
  path = "app.log";
  level = level;
  message = "m";
}

abbrev table : List LogRow
table = row 5 "info" ∷ row 4 "warn" ∷ row 3 "info" ∷ row 2 "info" ∷ row 1 "warn" ∷ []

-- ILIKE is not used by these queries.
abbrev pub never : String → String → Bool
never pattern s = false

abbrev limited : Select → ℤ → Rows
limited s (pos n) =
    rows (map some (take n (keep_if (λ r. all_hold never s.args r s.conds) table))) false
limited s n = refused

abbrev pool : Select → Rows
pool s = elim (arg_at s.limit_arg s.args) [ some (num n) ↦ limited s n | _ ↦ refused ]

table-Runs : Runs never table pool
table-Runs = record { answer = λ s n e. ground (arith, e) }

abbrev info_logs : LogQueryParams
info_logs = record {
  host = "";
  level = "info";
  from = pos 0;
  to = pos 0;
  q = "";
  limit = pos 2;
  cursor = pos 0;
}

page_test : query pool info_logs ≡ ok (row 5 "info" ∷ row 3 "info" ∷ [], pos 3)
unfolding query on_rows build ◌+ℤ◌ all_hold
page_test = refl

abbrev day : QueryParams
day = record {
  host = "web-1";
  name = "cpu.usage_pct";
  from = seconds 100;
  to = seconds 86_500;
  bucket = "5m";
  agg = "max";
}

day_valid : Metrics.validate day ≡ none
unfolding Metrics.validate is_blank contains lookup sub ◌-ℤ◌
day_valid = refl

select-validated_example :
    (l : String) × (a : String) × (lookup day.bucket valid_buckets ≡ some l)
    × (lookup day.agg valid_aggs ≡ some a)
    × ((select day).sql ≡ select_text l a)
select-validated_example = select-validated day day_valid

abbrev hooks : List NotificationItem
hooks = record { kind = "webhook"; url = "http://hook" } ∷ []

abbrev window_time : String → Option Time
window_time s = if str_eq s "start" then some (seconds 5400) else some (seconds 9000)

abbrev one_point : MetricSelect → Metrics.Rows (QueryPoint ℕ)
one_point s = Metrics.rows (some (record { time = s.from; value = 7 }) ∷ []) false

handle_dashboard_metrics-query_example :
    handle_dashboard_metrics one_point (seconds 9000) (("host", "web-1") ∷ ("window", "1h") ∷ [])
    ≡ ok (record {
      host = "web-1";
      window = "1h";
      series = map (api_series one_point window_time "web-1" "start" "end") canonical_names;
    })
unfolding window_durations lookup is_blank ◌-ℤ◌
handle_dashboard_metrics-query_example =
    handle_dashboard_metrics-query one_point window_time (seconds 9000) "web-1" (seconds 3600)
      "start" "end" refl refl "1h" refl refl

abbrev info_values : Values
info_values = ("level", "info") ∷ ("limit", "2") ∷ []

info_parsed : parse_log_query window_time info_values ≡ ok info_logs
unfolding parse_log_query lookup atoi Logs.validate contains
info_parsed = refl

http_pages-all_example :
    http_pages ℕ pool window_time 5 info_values ≡ keep_if (wanted never info_logs) table
unfolding lookup get
http_pages-all_example =
    http_pages-all ℕ window_time pool never table table-Runs (omega arith) info_values info_logs 5
      (ground arith) info_parsed refl (omega arith)
