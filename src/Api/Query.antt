-- ===== src/Api/Query.antt =====
-- internal/server/api/metrics.go and logs.go: the query handlers. `parse_time` is
-- `time.Parse(time.RFC3339, s)`, `none` for an error.
pub mod Bounds
pub mod CursorRange
pub mod Cursors
use theminidog.Base.{
  ℕ, ◌≡◌, refl, Bool, true, false, Option, none, some, List, [], ◌∷◌, String, Time, ℤ, pos, ltb_ℤ,
  Floats, str_eq, atoi, if◌then◌else◌, Result, ok, err, bind,
}
use theminidog.Storage.Metrics as Metrics
use theminidog.Storage.Metrics.{MetricSelect, QueryParams, QueryPoint, Rows}
use theminidog.Storage.Logs as Logs
use theminidog.Storage.Logs.{LogQueryParams, LogRow, Select}
use theminidog.Api.Responses.{
  Failure, invalid_from, invalid_to, invalid_limit, invalid_cursor, invalid_level, invalid_params,
  query_error, Body, points, log_page, Response, write_error, Values, get,
}

-- A query value, or its default where it is empty.
unfoldable pub get_or : String → String → Values → String
get_or k default q = let s = get k q in if str_eq s "" then default else s

unfoldable pub query_params : Values → Time → Time → QueryParams
unfolding get_or get
query_params q from to = record {
  host = get "host" q;
  name = get "name" q;
  from = from;
  to = to;
  bucket = get_or "bucket" "1m" q;
  agg = get_or "agg" "avg" q;
}

-- The parameters of a request, or the text of its 400.
unfoldable pub parse_query : (String → Option Time) → Values → Result Failure QueryParams
unfolding query_params get
parse_query parse_time q = elim (parse_time (get "from" q)) [
  | none ↦ err invalid_from
  | some from ↦ elim (parse_time (get "to" q)) [
    | none ↦ err invalid_to
    | some to ↦
        let params = query_params q from to in
        elim (Metrics.validate params) [ some e ↦ err (invalid_params e) | none ↦ ok params ]
  ]
]

unfoldable pub answer_points :
    {F : Type 0} → QueryParams → Result Metrics.QueryError (List (QueryPoint F)) → Response F
unfolding write_error
answer_points p (err e) = write_error 500 query_error
answer_points p (ok ps) = record { status = 200; body = points p.host p.name p.bucket p.agg ps }

unfoldable pub handle_query :
    {F : Type 0}
    → (MetricSelect → Rows (QueryPoint F))
    → (String → Option Time)
    → Values
    → Response F
unfolding parse_query answer_points write_error
handle_query pool parse_time q = elim (parse_query parse_time q) [
  | err f ↦ write_error 400 f
  | ok params ↦ answer_points params (Metrics.query pool params)
]

-- An optional time of a log query: the zero time where it is empty.
unfoldable pub opt_time : (String → Option Time) → Failure → String → Result Failure Time
opt_time parse_time f s =
    if str_eq s "" then ok (pos 0) else elim (parse_time s) [ none ↦ err f | some t ↦ ok t ]

unfoldable pub opt_limit : String → Result Failure ℤ
opt_limit s = if str_eq s "" then ok (pos 0) else elim (atoi s) [
  | none ↦ err invalid_limit
  | some n ↦ if ltb_ℤ n (pos 0) then err invalid_limit else ok n
]

unfoldable pub opt_cursor : String → Result Failure ℤ
opt_cursor s =
    if str_eq s "" then ok (pos 0) else elim (atoi s) [ none ↦ err invalid_cursor | some n ↦ ok n ]

-- The parameters after `Validate`, with the limit that it writes.
unfoldable pub check_params : LogQueryParams → Result Failure LogQueryParams
check_params raw =
    let (params, refused) = Logs.validate raw in if refused then err invalid_level else ok params

-- The parameters of a request of logs, or the text of its 400.
unfoldable pub parse_log_query : (String → Option Time) → Values → Result Failure LogQueryParams
unfolding opt_time opt_limit opt_cursor get check_params bind
parse_log_query parse_time q = bind (opt_time parse_time invalid_from (get "from" q)) (λ from.
    bind (opt_time parse_time invalid_to (get "to" q)) (λ to.
      bind (opt_limit (get "limit" q)) (λ limit. bind (opt_cursor (get "cursor" q)) (λ cursor.
        check_params (record {
          host = get "host" q;
          level = get "level" q;
          from = from;
          to = to;
          q = get "q" q;
          limit = limit;
          cursor = cursor;
        })))))

-- The JSON null where there is no next page.
unfoldable pub next_cursor : ℤ → Option ℤ
next_cursor c = if ltb_ℤ (pos 0) c then some c else none

unfoldable pub answer_logs : {F : Type 0} → Result Logs.QueryError (List LogRow × ℤ) → Response F
unfolding write_error next_cursor
answer_logs (err e) = write_error 500 query_error
answer_logs (ok (rs, c)) = record { status = 200; body = log_page rs (next_cursor c) }

unfoldable pub handle_query_logs :
    {F : Type 0} → (Select → Logs.Rows) → (String → Option Time) → Values → Response F
unfolding parse_log_query answer_logs write_error
handle_query_logs pool parse_time q = elim (parse_log_query parse_time q) [
  | err f ↦ write_error 400 f
  | ok params ↦ answer_logs (Logs.query pool params)
]
