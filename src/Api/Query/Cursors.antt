-- ===== src/Api/Query/Cursors.antt =====
-- A client of GET /api/v1/logs/query that follows `next_cursor`: the cursor goes out as a JSON
-- number and comes back as a query value.
use theminidog.Base.{
  ℕ, zero, suc, ◌≤◌, ◌≡◌, refl, sym, ap, ◌∙◌, Bool, true, false, Option, none, some, List, [], ◌++◌,
  String, Time, ℤ, pos, negsuc, ◌≤ℤ◌, ◌<ℤ◌, ltb_ℤ, insert, lookup-insert, str_eq, decimal,
  decimal-filled, atoi-decimal, length, if◌then◌else◌, arith, All, Result, ok, err, bind, bind_ok,
  ok-injective, keep_if, take, All-take, All-keep_if,
}
use Prim.Native.String.{◌++◌ as text_append}
use mathlib.Core.List.{append-nil}
use theminidog.Storage.Logs as Logs
use theminidog.Storage.Logs.{
  LogQueryParams, LogRow, Select, Rows, refused, rows, QueryError, scan_rows, cons_row, id_at,
  cut_page, page, on_rows, with_limit,
}
use theminidog.Storage.Logs.Answers.{wanted, below, Runs, Descending}
use theminidog.Storage.Logs.Paging.{pages, follow, pages-all, query_lem}
use theminidog.Api.Query.CursorRange.{max_int64, FitsRow, page-Fits}
use theminidog.Api.Responses.{
  Failure, Body, log_page, Response, Values, get, invalid_from, invalid_to, write_error,
}
use theminidog.Api.Query.{
  opt_time, opt_limit, opt_cursor, check_params, parse_log_query, next_cursor, answer_logs,
  handle_query_logs,
}

-- The JSON number of a cursor.
unfoldable pub cursor_text : ℤ → String
cursor_text (pos n) = decimal n
cursor_text (negsuc n) = text_append "-" (decimal (suc n))

unfoldable pub with_cursor : ℤ → Values → Values
unfolding cursor_text
with_cursor c q = insert "cursor" (cursor_text c) q

follow_body : {F : Type 0} → (ℤ → List LogRow) → Body F → List LogRow
follow_body next (log_page rs none) = rs
follow_body next (log_page rs (some c)) = rs ++ next c
follow_body next _ = []

-- The entries of the pages, until there is no next one.
unfoldable pub http_pages :
    (F : Type 0) → (Select → Rows) → (String → Option Time) → ℕ → Values → List LogRow
unfolding follow_body with_cursor
http_pages F pool parse_time zero q = []
http_pages F pool parse_time (suc fuel) q =
    follow_body (λ c. http_pages F pool parse_time fuel (with_cursor c q))
      (handle_query_logs {F = F} pool parse_time q).body

get-insert :
    (k s : String) (q : Values)
    → get k (insert "cursor" s q) ≡ (if str_eq "cursor" k then s else get k q)
unfolding get
get-insert k s q = ground (arith, lookup-insert "cursor" k s q)

opt_cursor-decimal : (n : ℕ) → n ≤ max_int64 → opt_cursor (decimal n) ≡ ok (pos n)
unfolding opt_cursor
opt_cursor-decimal n h = ground (arith, decimal-filled n, atoi-decimal n h)

check_params-cursor :
    (raw p : LogQueryParams) (c : ℤ)
    → check_params raw ≡ ok p
    → check_params (record raw { cursor = c }) ≡ ok (record p { cursor = c })
unfolding check_params Logs.validate with_limit
check_params-cursor raw p c e = ground (arith, e)

module _ (parse_time : String → Option Time) where
  -- The parameters of a request are those of the request before it, from the cursor on.
  parse_log_query-with_cursor :
      (n : ℕ)
      → n ≤ max_int64
      → (q : Values) (p : LogQueryParams) → parse_log_query parse_time q ≡ ok p
      → parse_log_query parse_time (with_cursor (pos n) q) ≡ ok (record p { cursor = pos n })
  unfolding parse_log_query bind with_cursor cursor_text
  parse_log_query-with_cursor n h q =
      let P : LogQueryParams → Type 0 = λ p.
        parse_log_query parse_time (with_cursor (pos n) q) ≡ ok (record p { cursor = pos n }) in
      bind_ok P (opt_time parse_time invalid_from (get "from" q)) _ (λ from f.
        bind_ok P (opt_time parse_time invalid_to (get "to" q)) _ (λ to t.
          bind_ok P (opt_limit (get "limit" q)) _ (λ limit l.
            bind_ok P (opt_cursor (get "cursor" q)) _ (λ cursor c p e.
              rw
                (
                  get-insert "from" (decimal n) q,
                  f,
                  get-insert "to" (decimal n) q,
                  t,
                  get-insert "limit" (decimal n) q,
                  l,
                  get-insert "cursor" (decimal n) q,
                  opt_cursor-decimal n h,
                  get-insert "host" (decimal n) q,
                  get-insert "level" (decimal n) q,
                  get-insert "q" (decimal n) q,
                )
                (check_params-cursor _ p (pos n) e)))))

  -- What the parsing promises of the limit and the cursor.
  abbrev IsFirst : Values → LogQueryParams → Type 0
  IsFirst q p = (pos 0 <ℤ p.limit) × (get "cursor" q ≡ "" → p.cursor ≡ pos 0)

  check_params-fields :
      (raw p : LogQueryParams)
      → check_params raw ≡ ok p
      → (pos 0 <ℤ p.limit) × (p.cursor ≡ raw.cursor)
  unfolding check_params Logs.validate with_limit
  check_params-fields raw p e = ground (arith, e)

  opt_cursor-empty : (s : String) (cursor : ℤ) → s ≡ "" → opt_cursor s ≡ ok cursor → cursor ≡ pos 0
  unfolding opt_cursor
  opt_cursor-empty s cursor empty c =
      let read : opt_cursor "" ≡ ok cursor = ap opt_cursor (sym empty) ∙ c in
      sym (ok-injective {E = Failure} {a = pos 0} read)

  parse_log_query-IsFirst :
      (q : Values) (p : LogQueryParams) → parse_log_query parse_time q ≡ ok p → IsFirst q p
  unfolding parse_log_query opt_cursor
  parse_log_query-IsFirst q =
      let P : LogQueryParams → Type 0 = IsFirst q in
      bind_ok P (opt_time parse_time invalid_from (get "from" q)) _ (λ from f.
        bind_ok P (opt_time parse_time invalid_to (get "to" q)) _ (λ to t.
          bind_ok P (opt_limit (get "limit" q)) _ (λ limit l.
            bind_ok P (opt_cursor (get "cursor" q)) _ (λ cursor c p e.
              let (positive, same) = check_params-fields _ p e in
              (positive, λ empty. same ∙ opt_cursor-empty (get "cursor" q) cursor empty c)))))

positive_suc : (z : ℤ) → pos 0 <ℤ z → (n : ℕ) × (z ≡ pos (suc n))
positive_suc (pos zero) h = absurd (omega (arith, h))
positive_suc (pos (suc n)) h = (n, refl)
positive_suc (negsuc n) h = absurd (omega (arith, h))

module _ (F : Type 0) (parse_time : String → Option Time) (pool : Select → Rows)
    (ilike : String → String → Bool) (table : List LogRow) (db : Runs ilike table pool)
    (fits : All FitsRow table) where
  query-Fits :
      (p : LogQueryParams) (n : ℕ) (rs : List LogRow) (c : ℤ)
      → p.limit ≡ pos (suc n)
      → Logs.query pool p ≡ ok (rs, c)
      → c ≤ℤ pos max_int64
  query-Fits p n rs c limit found =
      let asked = keep_if (below p.cursor) (keep_if (wanted ilike p) table) in
      page-Fits (pos (suc n)) (take (suc (suc n)) asked) rs c
        (All-take FitsRow (suc (suc n)) asked (
          All-keep_if FitsRow (below p.cursor) (keep_if (wanted ilike p) table)
            (All-keep_if FitsRow (wanted ilike p) table fits)))
        (sym (query_lem ilike table pool db p n limit) ∙ found)

  answer_body :
      (next next' : ℤ → List LogRow) (answer : Result QueryError (List LogRow × ℤ))
      → ((rs : List LogRow) (m : ℕ)
          → answer ≡ ok (rs, pos (suc m))
          → next (pos (suc m)) ≡ next' (pos (suc m)))
      → follow_body next (answer_logs {F = F} answer).body ≡ follow next' answer
  unfolding follow_body follow answer_logs next_cursor write_error
  answer_body next next' (err e) same = refl
  answer_body next next' (ok (rs, negsuc n)) same =
      let last : ltb_ℤ (pos 0) (negsuc n) ≡ false = ground arith in rw last (sym (append-nil rs))
  answer_body next next' (ok (rs, pos zero)) same = sym (append-nil rs)
  answer_body next next' (ok (rs, pos (suc m))) same =
      let more : ltb_ℤ (pos 0) (pos (suc m)) ≡ true = ground arith in
      rw more (ap (◌++◌ rs) (same rs m refl))

  handled :
      (q : Values) (p : LogQueryParams)
      → parse_log_query parse_time q ≡ ok p
      → handle_query_logs {F = F} pool parse_time q ≡ answer_logs (Logs.query pool p)
  unfolding handle_query_logs
  handled q p parsed = ground (arith, parsed)

  http_pages-pages :
      (fuel n : ℕ) (q : Values) (p : LogQueryParams)
      → p.limit ≡ pos (suc n)
      → parse_log_query parse_time q ≡ ok p
      → http_pages F pool parse_time fuel q ≡ pages pool fuel p
  unfolding http_pages pages
  http_pages-pages zero n q p limit parsed = refl
  http_pages-pages (suc fuel) n q p limit parsed =
      let next = λ (c : ℤ). http_pages F pool parse_time fuel (with_cursor c q) in
      ap (λ (r : Response F). follow_body next r.body) (handled q p parsed)
      ∙ (answer_body next (λ c. pages pool fuel (record p { cursor = c })) (Logs.query pool p)
          (λ rs m found.
            let small = query-Fits p n rs (pos (suc m)) limit found in
            http_pages-pages fuel n (with_cursor (pos (suc m)) q)
              (record p { cursor = pos (suc m) }) limit
              (parse_log_query-with_cursor parse_time (suc m) (omega (arith, small)) q p parsed)))

  -- For a request of logs without a cursor whose values are accepted, and a pool that runs a query
  -- over a table of positive, strictly descending int64 ids as SQL says: a client that sends the
  -- request again with the next_cursor of each answer, in decimal digits, reads exactly the rows
  -- of the table that the parameters ask for, each once and in the table's order, where it may
  -- follow as many pages as the table has rows.
  pub http_pages-all :
      (q : Values) (p : LogQueryParams) (fuel : ℕ)
      → Descending table
      → parse_log_query parse_time q ≡ ok p
      → get "cursor" q ≡ ""
      → length table ≤ fuel
      → http_pages F pool parse_time fuel q ≡ keep_if (wanted ilike p) table
  http_pages-all q p fuel d parsed empty enough =
      let (positive, first) = parse_log_query-IsFirst parse_time q p parsed in
      let (n, limit) : (n : ℕ) × (p.limit ≡ pos (suc n)) = positive_suc p.limit positive in
      http_pages-pages fuel n q p limit parsed
      ∙ pages-all ilike table pool db n p fuel limit (first empty) d enough
