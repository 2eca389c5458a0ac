-- ===== src/Api/Query/Bounds.antt =====
-- What a request can make the store run: the texts of the metric queries, and the size of the pages
-- of logs.
use theminidog.Base.{
  ℕ, ◌≡◌, ◌≢◌, refl, ◌≤◌, Bool, true, false, Option, none, some, List, String, Time, ℤ, pos, length,
  lookup, arith, ok, err, bind_ok, Result-cases, length-take, ap, ◌∙◌, ◌≤ℤ◌, take, ◌⊎◌, inl, inr,
  suc, zero, ◌<◌, ◌<ℤ◌, negsuc, [], ◌∷◌, Bool-cases, ltb,
}
use theminidog.Storage.Metrics as Metrics
use theminidog.Storage.Metrics.{
  MetricSelect, QueryPoint, Rows, valid_buckets, valid_aggs, select_text, select, QueryParams,
}
use theminidog.Storage.Metrics.Params.{select-validated}
use theminidog.Storage.Logs as Logs
use theminidog.Storage.Logs.{
  LogQueryParams, LogRow, Select, cut_page, page, on_rows, scan_rows, with_limit, id_at,
  index_panic, query_failed,
}
use theminidog.Api.Responses.{
  Failure, get, Values, Response, log_page, query_error, write_error, invalid_from, invalid_to,
}
use theminidog.Api.Query.{
  parse_query, handle_query, parse_log_query, handle_query_logs, answer_logs, check_params,
  next_cursor, opt_time, opt_limit, opt_cursor,
}

-- A text of the fifteen that the two maps give.
abbrev pub Listed : String → Type 0
Listed sql =
    (k : String) × (j : String) × (l : String) × (a : String) × (lookup k valid_buckets ≡ some l)
    × (lookup j valid_aggs ≡ some a)
    × (sql ≡ select_text l a)

parse_query-validated :
    (parse_time : String → Option Time) (q : Values) (p : QueryParams)
    → parse_query parse_time q ≡ ok p
    → Metrics.validate p ≡ none
unfolding parse_query
parse_query-validated parse_time q p e = ground arith

-- Whatever the values of a metric query, its answer depends on the pool only at queries whose SQL
-- text is built from a listed interval and a listed aggregate: two pools that agree there give the
-- same answer.
pub handle_query-Listed :
    {F : Type 0} (pool pool' : MetricSelect → Rows (QueryPoint F))
    (parse_time : String → Option Time) (q : Values)
    → ((s : MetricSelect) → Listed s.sql → pool s ≡ pool' s)
    → handle_query pool parse_time q ≡ handle_query pool' parse_time q
unfolding handle_query Metrics.query
handle_query-Listed pool pool' parse_time q same = elim (Result-cases (parse_query parse_time q)) [
  | inl (p, e) ↦
      let (l, a, bucket, agg, text) = select-validated p (parse_query-validated parse_time q p e) in
      ground (arith, e, same (select p) (p.bucket, p.agg, l, a, bucket, agg, text))
  | inr (f, e) ↦ ground (arith, e)
]

id_at-some : (n : ℕ) (rs : List LogRow) → n < length rs → (c : ℤ) × (id_at n rs ≡ some c)
unfolding id_at
id_at-some n [] h = absurd (omega arith)
id_at-some zero (r ∷ rs) h = (r.id, refl)
id_at-some (suc n) (r ∷ rs) h = id_at-some n rs (omega arith)

-- A page of a positive limit does not panic, and holds that many rows at most.
page_lem :
    (n : ℕ) (found : List LogRow)
    → (rs : List LogRow) × (c : ℤ) × (page (pos (suc n)) found ≡ ok (rs, c)) × (length rs ≤ suc n)
unfolding page cut_page
page_lem n found = elim (Bool-cases (ltb (suc n) (length found))) [
  | inl more ↦
      let (c, e) = id_at-some n found (ground arith) in
      (take (suc n) found, c, ground (arith, more, e), omega (arith, length-take (suc n) found))
  | inr last ↦ (found, pos 0, ground (arith, last), ground arith)
]

scan_rows-cases :
    (rs : List (Option LogRow)) (broken : Bool)
    → ((e : Logs.QueryError) × (scan_rows rs broken ≡ err e) × (e ≢ index_panic))
      ⊎ ((found : List LogRow) × (scan_rows rs broken ≡ ok found))
unfolding scan_rows
scan_rows-cases [] true = inl (Logs.iterate_failed, refl, λ e. cc)
scan_rows-cases [] false = inr ([], refl)
scan_rows-cases (none ∷ rs) broken = inl (Logs.scan_failed, refl, λ e. cc)
scan_rows-cases (some r ∷ rs) broken = elim (scan_rows-cases rs broken) [
  | inl (e, failed, other) ↦ inl (e, ground (arith, failed, Logs.cons_row), other)
  | inr (found, all) ↦ inr (r ∷ found, ground (arith, all, Logs.cons_row))
]

positive : (z : ℤ) → pos 0 <ℤ z → z ≤ℤ pos 1000 → (n : ℕ) × (z ≡ pos (suc n)) × (suc n ≤ 1000)
positive (pos zero) h k = absurd (omega arith)
positive (pos (suc n)) h k = (n, refl, omega arith)
positive (negsuc n) h k = absurd (omega arith)

abbrev IsLimited : LogQueryParams → Type 0
IsLimited p = (pos 0 <ℤ p.limit) × (p.limit ≤ℤ pos 1000)

check_params_lem : (raw p : LogQueryParams) → check_params raw ≡ ok p → IsLimited p
unfolding check_params Logs.validate with_limit
check_params_lem raw p e = ground arith

parsed-IsLimited :
    (parse_time : String → Option Time) (q : Values) (p : LogQueryParams)
    → parse_log_query parse_time q ≡ ok p
    → IsLimited p
unfolding parse_log_query
parsed-IsLimited parse_time q =
    bind_ok IsLimited (opt_time parse_time invalid_from (get "from" q)) _ (λ from ef.
      bind_ok IsLimited (opt_time parse_time invalid_to (get "to" q)) _ (λ to et.
        bind_ok IsLimited (opt_limit (get "limit" q)) _ (λ limit el.
          bind_ok IsLimited (opt_cursor (get "cursor" q)) _ (λ cursor ec. check_params_lem _))))

-- The limit of the query that a request of logs makes.
parsed_limit :
    (parse_time : String → Option Time) (q : Values) (p : LogQueryParams)
    → parse_log_query parse_time q ≡ ok p
    → (n : ℕ) × (p.limit ≡ pos (suc n)) × (suc n ≤ 1000)
parsed_limit parse_time q p e =
    let (low, high) = parsed-IsLimited parse_time q p e in positive p.limit low high

on_rows_lem :
    (n : ℕ) (answer : Logs.Rows)
    → ((e : Logs.QueryError) × (on_rows (pos (suc n)) answer ≡ err e) × (e ≢ index_panic))
      ⊎ ((rs : List LogRow) × (c : ℤ) × (on_rows (pos (suc n)) answer ≡ ok (rs, c))
          × (length rs ≤ suc n))
unfolding on_rows
on_rows_lem n Logs.refused = inl (query_failed, refl, λ e. cc)
on_rows_lem n (Logs.rows rs broken) = elim (scan_rows-cases rs broken) [
  | inl (e, failed, other) ↦ inl (e, ground (arith, failed), other)
  | inr (found, ok_rows) ↦
      let (rs', c, paged, small) = page_lem n found in
      inr (rs', c, ground (arith, ok_rows, paged), small)
]

-- The answers to a request of logs: refused, an error of the store, or a page within the limit.
abbrev pub IsPaged : {F : Type 0} → (Select → Logs.Rows) → Response F → Type 0
IsPaged pool out =
    ((f : Failure) × (out ≡ write_error 400 f))
    ⊎ ((p : LogQueryParams) × (n : ℕ) × (p.limit ≡ pos (suc n))
        × (suc n ≤ 1000)
        × (((e : Logs.QueryError) × (Logs.query pool p ≡ err e)
              × (e ≢ index_panic)
              × (out ≡ write_error 500 query_error))
            ⊎ ((rs : List LogRow) × (c : ℤ) × (Logs.query pool p ≡ ok (rs, c))
                × (length rs ≤ suc n)
                × (out ≡ record { status = 200; body = log_page rs (next_cursor c) }))))

-- Whatever the values of a log query and the pool: it is answered 400, or it runs with a limit
-- from 1 to 1000 and never indexes the rows out of range, and it is then answered 500 where the
-- store fails, and 200 with at most that many rows and the cursor of the next page otherwise.
pub handle_query_logs_bounds :
    {F : Type 0} (pool : Select → Logs.Rows) (parse_time : String → Option Time) (q : Values)
    → IsPaged {F = F} pool (handle_query_logs pool parse_time q)
unfolding handle_query_logs answer_logs Logs.query
handle_query_logs_bounds pool parse_time q = elim (Result-cases (parse_log_query parse_time q)) [
  | inr (f, e) ↦ inl (f, ground (arith, e))
  | inl (p, e) ↦
      let (n, limit, small) = parsed_limit parse_time q p e in
      elim (on_rows_lem n (pool (Logs.build p))) [
        | inl (x, failed, other) ↦ inr (
          p,
          n,
          limit,
          small,
          inl (
            x,
            ap (λ l. on_rows l (pool (Logs.build p))) limit ∙ failed,
            other,
            ground (arith, e, failed, limit),
          ),
        )
        | inr (rs, c, found, few) ↦ inr (
          p,
          n,
          limit,
          small,
          inr (
            rs,
            c,
            ap (λ l. on_rows l (pool (Logs.build p))) limit ∙ found,
            few,
            ground (arith, e, found, limit),
          ),
        )
      ]
]
