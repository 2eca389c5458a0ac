-- ===== src/Storage/Logs.antt =====
-- internal/server/storage/logs.go. A query is the structure of its SQL text, with numbered
-- placeholders, and the arguments bound to them; the pool that runs it is an argument.
pub mod Answers
pub mod Where
pub mod Positions
pub mod Paging
use Prim.Native.String.{◌++◌}
use theminidog.Base.{
  ℕ, zero, suc, ◌+◌, Bool, true, false, not, Option, none, some, List, [], ◌∷◌, String, Time, ℤ,
  pos, negsuc, ◌+ℤ◌, ltb_ℤ, leb_ℤ, is_zero, str_eq, contains, if◌then◌else◌, length, take, Result,
  ok, err, map, Bytes,
}
use theminidog.Model.Log.{LogEntry, LogBatch}
use theminidog.Storage.Batch.{exec_from}
use mathlib.Core.List.{◌++◌ as append}

pub record LogQueryParams : Type 0 where
  pub host : String
  pub level : String
  pub from : Time
  pub to : Time
  pub q : String
  pub limit : ℤ
  pub cursor : ℤ

abbrev pub valid_levels : List String
valid_levels = "info" ∷ "warn" ∷ "error" ∷ "debug" ∷ []

-- `Validate` writes the default of the limit back, also where it returns an error.
unfoldable pub with_limit : LogQueryParams → LogQueryParams
with_limit p =
    let raised = if leb_ℤ p.limit (pos 0) then pos 100 else p.limit in
    record p { limit = if ltb_ℤ (pos 1000) raised then pos 1000 else raised }

-- The parameters, and whether the level is refused.
unfoldable pub validate : LogQueryParams → LogQueryParams × Bool
unfolding with_limit
validate p =
    (with_limit p, if str_eq p.level "" then false else not (contains p.level valid_levels))

pub record LogRow : Type 0 where
  pub id : ℤ
  pub time : Time
  pub host : String
  pub path : String
  pub level : String
  pub message : String

-- The arguments of insertLogSQL.
pub record InsertLog : Type 0 where
  pub time : Time
  pub host : String
  pub path : String
  pub level : String
  pub message : Bytes

unfoldable pub queue : LogEntry → InsertLog
queue e = record {
  time = e.time;
  host = e.host;
  path = e.path;
  level = e.level;
  message = e.message;
}

-- The number that the repository returns, and whether an error comes with it. `exec i` says
-- whether the i-th statement of the batch succeeds.
unfoldable pub insert : (List InsertLog → ℕ → Bool) → LogBatch → ℕ × Bool
unfolding queue
insert exec batch = let b = map queue batch.entries in exec_from (exec b) 0 (length b)

-- The conditions of the WHERE clause, each with the number of its placeholder.
pub data Cond : Type 0 where
  host_is level_is time_from time_to message_like id_below : ℕ → Cond

pub data Arg : Type 0 where
  text : String → Arg
  time : Time → Arg
  num : ℤ → Arg

-- "SELECT … FROM logs WHERE … ORDER BY id DESC LIMIT $n", and the bound arguments.
pub record Select : Type 0 where
  pub conds : List Cond
  pub limit_arg : ℕ
  pub args : List Arg

pub record Builder : Type 0 where
  pub n : ℕ
  pub conds : List Cond
  pub args : List Arg

-- The closure `add`.
unfoldable pub add : Bool → (ℕ → Cond) → Arg → Builder → Builder
add used cond val b =
    if used
    then record {
      n = b.n + 1;
      conds = append b.conds (cond (b.n + 1) ∷ []);
      args = append b.args (val ∷ []);
    }
    else b

unfoldable pub build_conds : LogQueryParams → Builder
unfolding add
build_conds p =
    let b =
      add (not (str_eq p.host "")) host_is (text p.host)
        (record { n = 0; conds = []; args = [] }) in
    let b = add (not (str_eq p.level "")) level_is (text p.level) b in
    let b = add (not (is_zero p.from)) time_from (time p.from) b in
    let b = add (not (is_zero p.to)) time_to (time p.to) b in
    let b = add (not (str_eq p.q "")) message_like (text ("%" ++ (p.q ++ "%"))) b in
    add (ltb_ℤ (pos 0) p.cursor) id_below (num p.cursor) b

unfoldable pub build : LogQueryParams → Select
unfolding build_conds
build p =
    let b = build_conds p in
    record {
      conds = b.conds;
      limit_arg = b.n + 1;
      args = append b.args (num (p.limit +ℤ pos 1) ∷ []);
    }

pub data QueryError : Type 0 where
  query_failed scan_failed iterate_failed index_panic : QueryError

-- What the pool answers: an error, or rows, some of which may fail to scan, and the error at their
-- end.
pub data Rows : Type 0 where
  refused : Rows
  rows : List (Option LogRow) → Bool → Rows

unfoldable pub cons_row : LogRow → Result QueryError (List LogRow) → Result QueryError (List LogRow)
cons_row r (ok rs) = ok (r ∷ rs)
cons_row r (err e) = err e

unfoldable pub scan_rows : List (Option LogRow) → Bool → Result QueryError (List LogRow)
unfolding cons_row
scan_rows [] true = err iterate_failed
scan_rows [] false = ok []
scan_rows (none ∷ rs) broken = err scan_failed
scan_rows (some r ∷ rs) broken = cons_row r (scan_rows rs broken)

-- `rs[n]`
unfoldable pub id_at : ℕ → List LogRow → Option ℤ
id_at n [] = none
id_at zero (r ∷ rs) = some r.id
id_at (suc n) (r ∷ rs) = id_at n rs

-- The probe row: more rows than the limit mean a next page. A limit that is not positive would
-- index the results out of range.
unfoldable pub cut_page : ℤ → List LogRow → Result QueryError (List LogRow × ℤ)
unfolding id_at
cut_page (negsuc n) rs = err index_panic
cut_page (pos zero) rs = err index_panic
cut_page (pos (suc n)) rs = elim (id_at n rs) [
  | none ↦ err index_panic
  | some c ↦ ok (take (suc n) rs, c)
]

unfoldable pub page : ℤ → List LogRow → Result QueryError (List LogRow × ℤ)
unfolding cut_page
page limit rs = if ltb_ℤ limit (pos (length rs)) then cut_page limit rs else ok (rs, pos 0)

unfoldable pub on_rows : ℤ → Rows → Result QueryError (List LogRow × ℤ)
unfolding scan_rows page
on_rows limit refused = err query_failed
on_rows limit (rows rs broken) = elim (scan_rows rs broken) [
  | err e ↦ err e
  | ok found ↦ page limit found
]

-- The rows of a page and the cursor of the next one, or 0.
unfoldable pub query : (Select → Rows) → LogQueryParams → Result QueryError (List LogRow × ℤ)
query pool p = on_rows p.limit (pool (build p))
