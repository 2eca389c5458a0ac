-- ===== src/Api/Query/CursorRange.antt =====
-- The cursors that the pages of internal/server/storage/logs.go end with: they are int64.
use theminidog.Base.{
  ℕ, zero, suc, ◌≡◌, ap, ◌∙◌, some, List, [], ◌∷◌, ℤ, pos, negsuc, ◌≤ℤ◌, ltb_ℤ, length, arith, All,
  Bool-cases, inl, inr, ok, Option-cases,
}
use theminidog.Storage.Logs.{LogRow, id_at, cut_page, page}

abbrev pub max_int64 : ℕ
max_int64 = 9_223_372_036_854_775_807

-- The id is an int64.
abbrev pub FitsRow : LogRow → Type 0
FitsRow r = r.id ≤ℤ pos max_int64

id_at-Fits :
    (n : ℕ) (rs : List LogRow) (c : ℤ) → All FitsRow rs → id_at n rs ≡ some c → c ≤ℤ pos max_int64
unfolding id_at
id_at-Fits n [] c h e = absurd (ground (arith, e))
id_at-Fits zero (r ∷ rs) c h e = ground (arith, e, h.0)
id_at-Fits (suc n) (r ∷ rs) c h e = id_at-Fits n rs c h.1 e

cut_page-Fits :
    (limit : ℤ) (found rs : List LogRow) (c : ℤ)
    → All FitsRow found
    → cut_page limit found ≡ ok (rs, c)
    → c ≤ℤ pos max_int64
unfolding cut_page
cut_page-Fits (negsuc n) found rs c h e = absurd (ground (arith, e))
cut_page-Fits (pos zero) found rs c h e = absurd (ground (arith, e))
cut_page-Fits (pos (suc n)) found rs c h e = elim (Option-cases (id_at n found)) [
  | inl f ↦ absurd (ground (arith, f, e))
  | inr (d, f) ↦
      let same : d ≡ c = ground (arith, f, e) in id_at-Fits n found c h (f ∙ ap some same)
]

pub page-Fits :
    (limit : ℤ) (found rs : List LogRow) (c : ℤ)
    → All FitsRow found
    → page limit found ≡ ok (rs, c)
    → c ≤ℤ pos max_int64
unfolding page
page-Fits limit found rs c h e = elim (Bool-cases (ltb_ℤ limit (pos (length found)))) [
  | inl more ↦ cut_page-Fits limit found rs c h (ground (arith, more, e))
  | inr last ↦ ground (arith, last, e)
]
