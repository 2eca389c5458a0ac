-- ===== src/Storage/Logs/Paging.antt =====
-- Keyset pagination: the pages of a query against the rows that the parameters ask for.
use theminidog.Base.{
  ℕ, zero, suc, ◌+◌, ◌≤◌, ◌<◌, ◌≡◌, refl, sym, ap, ◌∙◌, Bool, true, false, some, List, [], ◌∷◌,
  ◌++◌, String, ℤ, pos, ◌+ℤ◌, ltb_ℤ, length, if◌then◌else◌, arith, Bool-cases, ◌⊎◌, inl, inr,
  Result, ok, err, take, keep_if, map, ◌<ℤ◌, length-take, take_all, ltb, drop, length-drop,
  keep_if-and, take-take, drop-drop, take-append-drop,
}
use mathlib.Core.Path.{fun_ext}
use mathlib.Core.List.{append-nil}
use theminidog.Storage.Logs.{
  LogQueryParams, LogRow, Select, Rows, rows, QueryError, num, build, scan_rows, id_at, cut_page,
  page, on_rows, query,
}
use theminidog.Storage.Logs.Answers.{arg_at, all_hold, wanted, below, Runs, Descending}
use theminidog.Storage.Logs.Positions.{
  id_at-take, id_at-drop, keep_if-drop, keep_if-Descending, drop-Descending, below_zero,
  length-keep_if, length-zero,
}
use theminidog.Storage.Logs.Where.{build-wanted}

scan_rows-map : (rs : List LogRow) → scan_rows (map some rs) false ≡ ok rs
unfolding scan_rows
scan_rows-map [] = refl
scan_rows-map (r ∷ rs) = rw (scan_rows-map rs)

on_rows-found : (l : ℤ) (rs : List LogRow) → on_rows l (rows (map some rs) false) ≡ page l rs
unfolding on_rows
on_rows-found l rs = ground (arith, scan_rows-map rs)

module _ (ilike : String → String → Bool) (table : List LogRow) (pool : Select → Rows)
    (db : Runs ilike table pool) where
  -- A query with a positive limit on a database that does not fail.
  pub query_lem :
      (p : LogQueryParams) (n : ℕ)
      → p.limit ≡ pos (suc n)
      → query pool p
        ≡ page
            (pos (suc n))
            (take (suc (suc n)) (keep_if (below p.cursor) (keep_if (wanted ilike p) table)))
  unfolding query
  query_lem p n e =
      let two : p.limit +ℤ pos 1 ≡ pos (suc (suc n)) = rw e (unfold ◌+ℤ◌ in ground arith) in
      let s = build p in
      let limit : arg_at s.limit_arg s.args ≡ some (num (pos (suc (suc n)))) =
        (build-wanted ilike p
          (record { id = pos 1; time = pos 0; host = ""; path = ""; level = ""; message = "" })).1
        ∙ rw two in
      let kept : keep_if (λ r. all_hold ilike s.args r s.conds) table
          ≡ keep_if (below p.cursor) (keep_if (wanted ilike p) table) =
        ap (λ f. keep_if f table) (fun_ext (λ r. (build-wanted ilike p r).0))
        ∙ keep_if-and (wanted ilike p) (below p.cursor) table in
      rw (db.answer s (suc (suc n)) limit, kept, e) (on_rows-found (pos (suc n)) _)

-- All the pages, each query from the cursor of the one before.
unfoldable pub follow : (ℤ → List LogRow) → Result QueryError (List LogRow × ℤ) → List LogRow
follow next (err e) = []
follow next (ok (rs, c)) = rs ++ (if ltb_ℤ (pos 0) c then next c else [])

unfoldable pub pages : (Select → Rows) → ℕ → LogQueryParams → List LogRow
unfolding follow
pages pool zero p = []
pages pool (suc fuel) p = follow (λ c. pages pool fuel (record p { cursor = c })) (query pool p)

page-drop :
    (n : ℕ) (l : List LogRow)
    → Descending l
    → ((length l ≤ suc n) × (page (pos (suc n)) (take (suc (suc n)) l) ≡ ok (l, pos 0)))
      ⊎ ((suc n < length l)
          × ((c : ℤ) × (page (pos (suc n)) (take (suc (suc n)) l) ≡ ok (take (suc n) l, c))
              × (id_at n l ≡ some c)
              × (pos 0 <ℤ c)))
unfolding page cut_page
page-drop n l d = elim (Bool-cases (ltb (suc n) (length l))) [
  | inr small ↦ inl (ground arith, rw (take_all (suc (suc n)) l (ground arith)) (ground arith))
  | inl big ↦
      let (c, e, p, k) = keep_if-drop n l d (ground arith) in
      inr (
        ground arith,
        (
          c,
          ground (
            arith,
            length-take (suc (suc n)) l,
            id_at-take n (suc (suc n)) l,
            take-take (suc n) (suc (suc n)) l,
            e,
          ),
          e,
          p,
        ),
      )
]

wanted-cursor :
    (ilike : String → String → Bool) (p : LogQueryParams) (c : ℤ)
    → wanted ilike (record p { cursor = c }) ≡ wanted ilike p
unfolding wanted
wanted-cursor ilike p c = refl

module _ (ilike : String → String → Bool) (table : List LogRow) (pool : Select → Rows)
    (db : Runs ilike table pool) (n : ℕ) where
  pages-drop :
      (fuel k : ℕ) (p : LogQueryParams) (w : List LogRow)
      → p.limit ≡ pos (suc n)
      → keep_if (wanted ilike p) table ≡ w
      → Descending w
      → keep_if (below p.cursor) w ≡ drop k w
      → length (drop k w) ≤ fuel
      → pages pool fuel p ≡ drop k w
  unfolding pages
  pages-drop zero k p w l e d at f = sym (length-zero (drop k w) (omega arith))
  pages-drop (suc fuel) k p w l e d at f =
      let here : query pool p ≡ page (pos (suc n)) (take (suc (suc n)) (drop k w)) =
        query_lem ilike table pool db p n l ∙ rw (e, at) refl in
      elim (page-drop n (drop k w) (drop-Descending k w d)) [
        | inl (small, last) ↦ rw (here, last) (append-nil (drop k w))
        | inr (big, (c, more, at', c_pos)) ↦
            let positive : ltb_ℤ (pos 0) c ≡ true = ground arith in
            let kn : suc (k + n) ≡ k + suc n = omega arith in
            let (c', e', q, kept) = keep_if-drop (k + n) w d (omega (arith, length-drop k w)) in
            let same : c' ≡ c = (let there = id_at-drop k n w in cc) in
            let below_c : keep_if (below c) w ≡ drop (k + suc n) w =
              ap (λ x. keep_if (below x) w) (sym same) ∙ kept ∙ ap (λ m. drop m w) kn in
            let rest =
              pages-drop fuel (k + suc n) (record p { cursor = c }) w l
                (ap (λ f. keep_if f table) (wanted-cursor ilike p c) ∙ e) d below_c
                (omega (arith, length-drop k w, length-drop (k + suc n) w)) in
            rw (here, more, positive, rest, sym (drop-drop k (suc n) w))
              (take-append-drop (suc n) (drop k w))
      ]

  -- For a pool that runs a query over a table of positive, strictly descending ids as SQL says,
  -- and a query from cursor 0 with a positive limit: the pages that a client reads by following
  -- the cursor are, joined, exactly the rows of the table that the parameters ask for, each once
  -- and in the table's order, where the client may follow as many pages as the table has rows.
  pub pages-all :
      (p : LogQueryParams) (fuel : ℕ)
      → p.limit ≡ pos (suc n)
      → p.cursor ≡ pos 0
      → Descending table
      → length table ≤ fuel
      → pages pool fuel p ≡ keep_if (wanted ilike p) table
  pages-all p fuel l c d f =
      pages-drop fuel 0 p (keep_if (wanted ilike p) table) l refl
        (keep_if-Descending (wanted ilike p) table d) (rw c (below_zero _))
        (omega (arith, length-keep_if (wanted ilike p) table))
