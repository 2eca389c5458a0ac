-- ===== src/Api/Status/Scrape/RoundTrip.antt =====
-- The text of the Prometheus page is read back as the samples that were written.
use theminidog.Base.{
  ℕ, ◌≡◌, refl, ap, ◌∙◌, true, false, Option, some, List, [], ◌∷◌, ◌++◌, String, Floats, ℤ, pos,
  negsuc, decimal-All_digits, codes, leb, ltb, ◌==◌, ◌&&◌, ◌||◌, All, All-append, arith, suc,
}
use mathlib.Core.List.{append_assoc}
use theminidog.Storage.Metrics.{QueryPoint}
use theminidog.Api.Responses.{Family}
use theminidog.Api.Status.Page.{
  unix_milli, int_text, quote_rune, quote, row_line, row_lines, page_text,
}
use theminidog.Api.Status.Scrape.{
  cut_lines, push, unquote, drop_prefix, Sample, read_numbers, read_closing, read_host, read_row,
  read_lines, read_page, Without, has, has-Without, until-append, read_page-line,
}

-- The characters of a host's name that both formats write alike: those of printable ASCII, and the
-- newline.
abbrev pub IsPlain : ℕ → Type 0
IsPlain c = (c == 10 || (leb 32 c && ltb c 127)) ≡ true

-- A name of a family, on a line of its own.
abbrev pub IsName : List ℕ → Type 0
IsName [] = ⊥
IsName (c ∷ cs) = (c == b'#' ≡ false) × (Without b'{' (c ∷ cs) × Without 10 (c ∷ cs))

name-Without : (prom : List ℕ) → IsName prom → Without 10 prom
name-Without [] h = absurd h
name-Without (c ∷ cs) h = h.1.1

module _ (fl : Floats) where
  open fl use {F}

  -- The format `%g` writes neither a space nor a newline.
  abbrev pub IsSolid : Type 0
  IsSolid = (v : F) → Without b' ' (codes (fl.show v)) × Without 10 (codes (fl.show v))

  abbrev pub sample_of : List ℕ → String × QueryPoint F → Sample
  sample_of prom (host, p) = record {
    name = prom;
    host = codes host;
    value = codes (fl.show p.value);
    stamp = int_text (unix_milli p.time);
  }

  abbrev pub row_samples : List ℕ → List (String × QueryPoint F) → List Sample → List Sample
  row_samples prom [] rest = rest
  row_samples prom (r ∷ rs) rest = sample_of prom r ∷ row_samples prom rs rest

  -- The rows of the families, in their order.
  abbrev pub samples_of : List (Family F) → List Sample
  samples_of [] = []
  samples_of (f ∷ fs) = row_samples (codes f.prom_name) f.rows (samples_of fs)

  abbrev pub ArePlain : List (String × QueryPoint F) → Type 0
  ArePlain = All (λ r. All IsPlain (codes r.0))

  abbrev pub IsWritten : Family F → Type 0
  IsWritten f = IsName (codes f.prom_name) × (Without 10 (codes f.name) × ArePlain f.rows)

module _ (beyond : ℕ → List ℕ) where
  unquote-quote_rune :
      (c : ℕ) (t : List ℕ)
      → IsPlain c
      → unquote false (quote_rune beyond c ++ t) ≡ push c (unquote false t)
  unfolding unquote quote_rune
  unquote-quote_rune c t h = ground (arith, h)

  quote_rune-Without : (c : ℕ) → IsPlain c → Without 10 (quote_rune beyond c)
  unfolding quote_rune
  quote_rune-Without c h = ground (arith, h)

  unquote-quote :
      (cs r : List ℕ) → All IsPlain cs → unquote false (quote beyond cs ++ b'"' ∷ r) ≡ some (cs, r)
  unfolding quote push
  unquote-quote [] r h = unfold unquote in refl
  unquote-quote (c ∷ cs) r h =
      ap (unquote false) (append_assoc (quote_rune beyond c) (quote beyond cs) (b'"' ∷ r))
      ∙ unquote-quote_rune c (quote beyond cs ++ b'"' ∷ r) h.0
      ∙ ap (push c) (unquote-quote cs r h.1)

  quote-Without : (cs : List ℕ) → All IsPlain cs → Without 10 (quote beyond cs)
  unfolding quote
  quote-Without [] h = tt
  quote-Without (c ∷ cs) h =
      All-append (λ d. d == 10 ≡ false) (quote_rune beyond c) (quote beyond cs)
        (quote_rune-Without c h.0) (quote-Without cs h.1)

  int_text-Without : (z : ℤ) → Without 10 (int_text z)
  unfolding int_text
  int_text-Without (pos n) = decimal-All_digits (λ c. c == 10 ≡ false) (λ d h. ground (arith, h)) n
  int_text-Without (negsuc n) =
      (refl, decimal-All_digits (λ c. c == 10 ≡ false) (λ d h. ground (arith, h)) (suc n))

  module _ (fl : Floats) where
    open fl use {F}

    read_row-row_line :
        (prom : List ℕ) (r : String × QueryPoint F)
        → Without b'{' prom
        → All IsPlain (codes r.0)
        → IsSolid fl
        → read_row (row_line beyond fl prom r) ≡ some (sample_of fl prom r)
    unfolding read_row read_host read_closing read_numbers row_line drop_prefix
    read_row-row_line prom (host, p) named plain solid =
        let stamp = int_text (unix_milli p.time) in
        let numbers = codes (fl.show p.value) ++ (b' ' ∷ stamp) in
        let closing = b'}' ∷ b' ' ∷ numbers in
        let quoted = quote beyond (codes host) ++ (b'"' ∷ closing) in
        let finished : List ℕ × List ℕ → Option Sample =
          λ l. some (record { name = prom; host = codes host; value = l.0; stamp = l.1 }) in
        ap (λ (l : List ℕ × List ℕ). read_host l.0 (drop_prefix (codes "host=\"") l.1))
          (until-append b'{' prom (codes "host=\"" ++ quoted) named)
        ∙ ap (read_closing prom) (unquote-quote (codes host) closing plain)
        ∙ ap finished (until-append b' ' (codes (fl.show p.value)) stamp (solid p.value).0)

    row_line-Without :
        (prom : List ℕ) (r : String × QueryPoint F)
        → Without 10 prom
        → All IsPlain (codes r.0)
        → IsSolid fl
        → Without 10 (row_line beyond fl prom r)
    unfolding row_line
    row_line-Without prom (host, p) named plain solid =
        let stamp = int_text (unix_milli p.time) in
        let numbers = codes (fl.show p.value) ++ (b' ' ∷ stamp) in
        let closing = codes "\"} " ++ numbers in
        let IsInside : ℕ → Type 0 = λ c. c == 10 ≡ false in
        All-append IsInside prom _ named (
          refl,
          (
            refl,
            (
              refl,
              (
                refl,
                (
                  refl,
                  (
                    refl,
                    (
                      refl,
                      All-append IsInside (quote beyond (codes host)) closing
                          (quote-Without (codes host) plain)
                          (
                            refl,
                            (
                              refl,
                              (
                                refl,
                                All-append IsInside (codes (fl.show p.value)) (b' ' ∷ stamp)
                                    (solid p.value).1 (refl, int_text-Without (unix_milli p.time)),
                              ),
                            ),
                          ),
                    ),
                  ),
                ),
              ),
            ),
          ),
        )

    read_page-row :
        (prom : List ℕ) (r : String × QueryPoint F) (t : List ℕ) (ss : List Sample)
        → IsName prom
        → All IsPlain (codes r.0)
        → IsSolid fl
        → read_page t ≡ some ss
        → read_page (row_line beyond fl prom r ++ 10 ∷ t) ≡ some (sample_of fl prom r ∷ ss)
    unfolding read_page read_lines row_line
    read_page-row [] r t ss named plain solid read = absurd named
    read_page-row (c ∷ cs) r t ss (mark, (named, one_line)) plain solid read =
        read_page-line (row_line beyond fl (c ∷ cs) r) t
          (row_line-Without (c ∷ cs) r one_line plain solid)
        ∙ rw mark (rw (read_row-row_line (c ∷ cs) r named plain solid) (rw read refl))

    read_page-rows :
        (prom : List ℕ) (rs : List (String × QueryPoint F)) (t : List ℕ) (ss : List Sample)
        → IsName prom
        → ArePlain fl rs
        → IsSolid fl
        → read_page t ≡ some ss
        → read_page (row_lines beyond fl prom rs t) ≡ some (row_samples fl prom rs ss)
    unfolding row_lines
    read_page-rows prom [] t ss named plain solid read = read
    read_page-rows prom (r ∷ rs) t ss named plain solid read =
        read_page-row prom r (row_lines beyond fl prom rs t) (row_samples fl prom rs ss) named
          plain.0 solid (read_page-rows prom rs t ss named plain.1 solid read)

    -- A comment, and an empty line.
    read_page-comment :
        (xs t : List ℕ) → Without 10 (b'#' ∷ xs) → read_page (b'#' ∷ (xs ++ 10 ∷ t)) ≡ read_page t
    unfolding read_lines
    read_page-comment xs t h = read_page-line (b'#' ∷ xs) t h ∙ unfold read_page in refl

    read_page-blank : (t : List ℕ) → read_page (10 ∷ t) ≡ read_page t
    unfolding read_lines
    read_page-blank t = read_page-line [] t tt ∙ unfold read_page in refl

    pub read_page-page_text :
        (fs : List (Family F))
        → All (IsWritten fl) fs
        → IsSolid fl
        → read_page (page_text beyond fl fs) ≡ some (samples_of fl fs)
    unfolding page_text
    read_page-page_text [] h solid = unfold read_page read_lines cut_lines in refl
    read_page-page_text (f ∷ fs) ((named, (one_line, plain)), h) solid =
        let prom = codes f.prom_name in
        let IsInside : ℕ → Type 0 = λ c. c == 10 ≡ false in
        let inside = name-Without prom named in
        let typed = codes " TYPE " ++ (prom ++ codes " gauge") in
        let helped = codes " HELP " ++ (prom ++ (codes " MiniObserv metric: " ++ codes f.name)) in
        let blank = 10 ∷ page_text beyond fl fs in
        let rows = row_lines beyond fl prom f.rows blank in
        read_page-comment helped (b'#' ∷ (typed ++ 10 ∷ rows)) (
          All-append IsInside (codes "# HELP ")
            (prom ++ (codes " MiniObserv metric: " ++ codes f.name))
            (has-Without 10 (codes "# HELP ") (unfold has in refl))
            (All-append IsInside prom (codes " MiniObserv metric: " ++ codes f.name) inside (
              All-append IsInside (codes " MiniObserv metric: ") (codes f.name)
                (has-Without 10 (codes " MiniObserv metric: ") (unfold has in refl)) one_line)))
        ∙ read_page-comment typed rows (
            All-append IsInside (codes "# TYPE ") (prom ++ codes " gauge")
              (has-Without 10 (codes "# TYPE ") (unfold has in refl))
              (All-append IsInside prom (codes " gauge") inside
                (has-Without 10 (codes " gauge") (unfold has in refl))))
        ∙ read_page-rows prom f.rows blank (samples_of fl fs) named plain solid
            (read_page-blank (page_text beyond fl fs) ∙ read_page-page_text fs h solid)
