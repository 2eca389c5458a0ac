-- ===== src/Api/Status/Page.antt =====
-- internal/server/api/prometheus.go: the text of the page. A text is code points; what `%q` writes
-- for those above 127 is an argument, since it goes by the tables of printable characters.
use theminidog.Base.{
  ℕ, ◌+◌, ◌-◌, ◌/◌, ◌%◌, List, [], ◌∷◌, ◌++◌, String, Time, Floats, ℤ, pos, negsuc, ◌-ℤ◌, seconds,
  decimal, codes, leb, ltb, ◌==◌, ◌&&◌, ◌||◌, if◌then◌else◌, suc,
}
use theminidog.Storage.Metrics.{QueryPoint}
use theminidog.Api.Responses.{Body, families, Family}

-- `time.UnixMilli`, rounded down.
unfoldable pub unix_milli : Time → ℤ
unix_milli t = elim (t -ℤ seconds 62_135_596_800) [
  | pos n ↦ pos (n / 1_000_000)
  | negsuc n ↦ negsuc (n / 1_000_000)
]

-- `%d`
unfoldable pub int_text : ℤ → List ℕ
int_text (pos n) = codes (decimal n)
int_text (negsuc n) = b'-' ∷ codes (decimal (suc n))

hex_digit : ℕ → ℕ
hex_digit n = if ltb n 10 then b'0' + n else b'a' + n - 10

-- A control character of ASCII.
control : ℕ → List ℕ
unfolding hex_digit
control c =
    if c == 7
    then codes "\\a"
    else if c == 8
    then codes "\\b"
    else if c == 9
    then codes "\\t"
    else if c == 10
    then codes "\\n"
    else if c == 11
    then codes "\\v"
    else if c == 12
    then codes "\\f"
    else if c == 13
    then codes "\\r"
    else codes "\\x" ++ (hex_digit (c / 16) ∷ hex_digit (c % 16) ∷ [])

module _ (beyond : ℕ → List ℕ) where
  unfoldable pub quote_rune : ℕ → List ℕ
  unfolding control
  quote_rune c =
      if c == b'"' || c == b'\\'
      then b'\\' ∷ c ∷ []
      else if ltb 127 c
      then beyond c
      else if leb 32 c && ltb c 127
      then c ∷ []
      else control c

  -- `%q`, without the quotation mark that ends it.
  unfoldable pub quote : List ℕ → List ℕ
  unfolding quote_rune
  quote [] = []
  quote (c ∷ cs) = quote_rune c ++ quote cs

  module _ (fl : Floats) where
    open fl use {F}

    unfoldable pub row_line : List ℕ → String × QueryPoint F → List ℕ
    unfolding quote int_text unix_milli
    row_line prom (host, p) =
        prom
        ++ (codes "{host=\""
            ++ (quote (codes host)
                ++ (codes "\"} "
                    ++ (codes (fl.show p.value) ++ (b' ' ∷ int_text (unix_milli p.time))))))

    unfoldable pub row_lines : List ℕ → List (String × QueryPoint F) → List ℕ → List ℕ
    unfolding row_line
    row_lines prom [] rest = rest
    row_lines prom (r ∷ rs) rest = row_line prom r ++ (10 ∷ row_lines prom rs rest)

    -- The page from its families on; `fmt.Fprintln` ends each with an empty line.
    unfoldable pub page_text : List (Family F) → List ℕ
    unfolding row_lines
    page_text [] = []
    page_text (f ∷ fs) =
        let prom = codes f.prom_name in
        (codes "# HELP " ++ (prom ++ (codes " MiniObserv metric: " ++ codes f.name)))
        ++ (10 ∷ (codes "# TYPE " ++ (prom ++ codes " gauge"))
            ++ (10 ∷ row_lines prom f.rows (10 ∷ page_text fs)))

    -- What the handler writes: nothing before the families.
    unfoldable pub body_text : Body F → List ℕ
    unfolding page_text
    body_text (families fs) = page_text fs
    body_text _ = []
