-- ===== src/Api/Status/Scrape.antt =====
-- A reader of the text of the Prometheus page.
pub mod RoundTrip
pub mod Served
use theminidog.Base.{
  ℕ, ◌+◌, ◌<◌, ◌≡◌, refl, sym, ap, ◌∙◌, Bool, true, false, Option, none, some, List, [], ◌∷◌, ◌++◌,
  String, Time, Floats, ℤ, pos, negsuc, decimal, decimal-All_digits, codes, leb, ltb, ◌==◌, ◌&&◌,
  ◌||◌, if◌then◌else◌, All, All-append, arith, map, suc, inl, inr, Bool-cases,
}
use mathlib.Core.List.{append_assoc, append-nil}
use theminidog.Storage.Metrics.{QueryPoint}
use theminidog.Api.Responses.{Family}
use theminidog.Api.Status.Page.{
  unix_milli, int_text, quote_rune, quote, row_line, row_lines, page_text,
}

-- The text before the first of a character, and what stands behind it.
until : ℕ → List ℕ → List ℕ × List ℕ
until e [] = ([], [])
until e (c ∷ cs) =
    let (before, behind) = until e cs in if c == e then ([], cs) else (c ∷ before, behind)

-- The first line, and those behind it.
cut_lines : List ℕ → List ℕ × List (List ℕ)
cut_lines [] = ([], [])
cut_lines (c ∷ cs) = let (l, ls) = cut_lines cs in if c == 10 then ([], l ∷ ls) else (c ∷ l, ls)

push : ℕ → Option (List ℕ × List ℕ) → Option (List ℕ × List ℕ)
push c none = none
push c (some (s, r)) = some (c ∷ s, r)

-- A label's value, with the escapes of the exposition format; the flag says that a backslash stands
-- before.
unquote : Bool → List ℕ → Option (List ℕ × List ℕ)
unfolding push
unquote escaped [] = none
unquote false (c ∷ cs) =
    let plain = unquote false cs in
    let escape = unquote true cs in
    if c == b'"' then some ([], cs) else if c == b'\\' then escape else push c plain
unquote true (c ∷ cs) =
    let rest = unquote false cs in
    if c == b'n' then push 10 rest else if c == b'"' || c == b'\\' then push c rest else none

drop_prefix : List ℕ → List ℕ → Option (List ℕ)
drop_prefix [] cs = some cs
drop_prefix (p ∷ ps) [] = none
drop_prefix (p ∷ ps) (c ∷ cs) = let rest = drop_prefix ps cs in if p == c then rest else none

pub record Sample : Type 0 where
  pub name : List ℕ
  pub host : List ℕ
  pub value : List ℕ
  pub stamp : List ℕ

-- The two numbers behind the labels, between which a space stands.
read_numbers : List ℕ → List ℕ → Option (List ℕ) → Option Sample
unfolding until
read_numbers name host none = none
read_numbers name host (some numbers) =
    let (value, stamp) = until b' ' numbers in
    some (record { name = name; host = host; value = value; stamp = stamp })

read_closing : List ℕ → Option (List ℕ × List ℕ) → Option Sample
unfolding read_numbers drop_prefix
read_closing name none = none
read_closing name (some (host, closing)) = read_numbers name host (drop_prefix (codes "} ") closing)

read_host : List ℕ → Option (List ℕ) → Option Sample
unfolding read_closing unquote
read_host name none = none
read_host name (some quoted) = read_closing name (unquote false quoted)

read_row : List ℕ → Option Sample
unfolding until read_host drop_prefix
read_row line =
    let (name, labels) = until b'{' line in read_host name (drop_prefix (codes "host=\"") labels)

add : Option Sample → Option (List Sample) → Option (List Sample)
add none rest = none
add (some s) none = none
add (some s) (some ss) = some (s ∷ ss)

-- Empty lines and comments hold no sample.
read_lines : List (List ℕ) → Option (List Sample)
unfolding read_row add
read_lines [] = some []
read_lines ([] ∷ ls) = read_lines ls
read_lines ((c ∷ l) ∷ ls) =
    let rest = read_lines ls in if c == b'#' then rest else add (read_row (c ∷ l)) rest

unfoldable pub read_page : List ℕ → Option (List Sample)
unfolding read_lines cut_lines
read_page text = let (l, ls) = cut_lines text in read_lines (l ∷ ls)

abbrev pub Without : ℕ → List ℕ → Type 0
Without e = All (λ c. c == e ≡ false)

-- A test for it, which computes on a text.
has : ℕ → List ℕ → Bool
has e [] = false
has e (c ∷ cs) = c == e || has e cs

has-Without : (e : ℕ) (xs : List ℕ) → has e xs ≡ false → Without e xs
unfolding has
has-Without e [] h = tt
has-Without e (c ∷ cs) h = (ground (arith, h), has-Without e cs (ground (arith, h)))

until-append : (e : ℕ) (xs r : List ℕ) → Without e xs → until e (xs ++ e ∷ r) ≡ (xs, r)
unfolding until
until-append e [] r h = ground arith
until-append e (x ∷ xs) r h = rw h.0 (rw (until-append e xs r h.1) refl)

cut_lines-append :
    (xs r : List ℕ)
    → Without 10 xs
    → cut_lines (xs ++ 10 ∷ r) ≡ (xs, (cut_lines r).0 ∷ (cut_lines r).1)
unfolding cut_lines
cut_lines-append [] r h = refl
cut_lines-append (x ∷ xs) r h = rw (cut_lines-append xs r h.1) (rw h.0 refl)

-- A line in front of a text.
read_page-line :
    (xs r : List ℕ)
    → Without 10 xs
    → read_page (xs ++ 10 ∷ r) ≡ read_lines (xs ∷ (cut_lines r).0 ∷ (cut_lines r).1)
unfolding read_page
read_page-line xs r h = rw (cut_lines-append xs r h) refl
