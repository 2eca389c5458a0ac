-- ===== src/Logtail/Level.antt =====
-- internal/agent/logtail/parser.go. The four regular expressions as data, with a matcher that
-- backtracks: `regexp` prefers the same match. They are case-insensitive, over code points.
use theminidog.Base.{
  ℕ, ◌+◌, ◌≡◌, refl, Bool, true, false, not, ◌&&◌, ◌||◌, Option, none, some, List, [], ◌∷◌, String,
  Bytes, runes, codes, leb, ◌==◌, if◌then◌else◌, map,
}
use mathlib.Core.List.{reverse}
pub mod Structured

-- `\d`, and `\s` (ASCII white space, without the vertical tab).
unfoldable pub is_digit : ℕ → Bool
is_digit c = leb b'0' c && leb c b'9'

unfoldable pub is_white : ℕ → Bool
is_white c = c == 9 || c == 10 || c == 12 || c == 13 || c == 32

is_letter : ℕ → Bool
is_letter c = (leb b'a' c && leb c b'z') || (leb b'A' c && leb c b'Z')

-- `\w`; folding adds the long s and the Kelvin sign.
unfoldable pub is_word : ℕ → Bool
unfolding is_digit is_letter
is_word c = is_letter c || is_digit c || c == b'_' || c == 0x17f || c == 0x212a

-- The characters of a timestamp: `[\d\-T:.Z\s]`, folded.
unfoldable pub is_stamp : ℕ → Bool
unfolding is_digit is_white
is_stamp c =
    is_digit c
    || is_white c
    || c == b'-'
    || c == b':'
    || c == b'.'
    || c == b'T'
    || c == b't'
    || c == b'Z'
    || c == b'z'

-- `strings.ToLower` on the characters of a word.
unfoldable pub lower : ℕ → ℕ
lower c = if leb b'A' c && leb c b'Z' then c + 32 else if c == 0x212a then b'k' else c

-- A letter of a pattern, folded.
same_letter : ℕ → ℕ → Bool
unfolding lower
same_letter l c = lower c == l || (l == b's' && c == 0x17f)

-- The pieces of an expression: a text, one of two texts, one character of a class, a greedy run of
-- a class, an optional character of a class with a run behind it, and the captured `(\w+)`.
pub data Piece : Type 0 where
  text : List ℕ → Piece
  either : List ℕ → List ℕ → Piece
  one : (ℕ → Bool) → Piece
  run : (ℕ → Bool) → Piece
  maybe : (ℕ → Bool) → (ℕ → Bool) → Piece
  capture : Piece

strip : List ℕ → List ℕ → Option (List ℕ)
unfolding same_letter
strip [] cs = some cs
strip (l ∷ ls) [] = none
strip (l ∷ ls) (c ∷ cs) = if same_letter l c then strip ls cs else none

or_else : Option (List ℕ) → Option (List ℕ) → Option (List ℕ)
or_else (some r) o = some r
or_else none o = o

-- A continuation gets the input that is left and gives the capture.
abbrev Rest : Type 0
Rest = List ℕ → Option (List ℕ)

after : Rest → Option (List ℕ) → Option (List ℕ)
after k none = none
after k (some cs) = k cs

run_then : (ℕ → Bool) → Rest → Rest
unfolding or_else
run_then p k [] = k []
run_then p k (c ∷ cs) =
    let longer = or_else (run_then p k cs) (k (c ∷ cs)) in if p c then longer else k (c ∷ cs)

one_then : (ℕ → Bool) → Rest → Rest
one_then p k [] = none
one_then p k (c ∷ cs) = if p c then k cs else none

-- The word so far stands in reverse; it is not empty when the continuation is called.
word_then : List ℕ → (List ℕ → Rest) → Rest
unfolding or_else is_word
word_then w k [] = k (reverse w) []
word_then w k (c ∷ cs) =
    let longer = or_else (word_then (c ∷ w) k cs) (k (reverse w) (c ∷ cs)) in
    if is_word c then longer else k (reverse w) (c ∷ cs)

capture_then : (List ℕ → Rest) → Rest
unfolding word_then is_word
capture_then k [] = none
capture_then k (c ∷ cs) = let found = word_then (c ∷ []) k cs in if is_word c then found else none

-- A match of the pieces at the start of the input, with the word captured so far.
unfoldable pub match_here : List Piece → List ℕ → Rest
unfolding strip after run_then one_then or_else capture_then
match_here [] w cs = some w
match_here (text t ∷ ps) w cs = after (match_here ps w) (strip t cs)
match_here (either t u ∷ ps) w cs =
    or_else (after (match_here ps w) (strip t cs)) (after (match_here ps w) (strip u cs))
match_here (one p ∷ ps) w cs = one_then p (match_here ps w) cs
match_here (run p ∷ ps) w cs = run_then p (match_here ps w) cs
match_here (maybe p q ∷ ps) w cs =
    or_else (one_then p (run_then q (match_here ps w)) cs) (match_here ps w cs)
match_here (capture ∷ ps) w cs = capture_then (match_here ps) cs

-- The leftmost match.
unfoldable pub search_from : List Piece → List ℕ → Option (List ℕ)
unfolding match_here or_else
search_from ps [] = match_here ps [] []
search_from ps (c ∷ cs) = let later = search_from ps cs in or_else (match_here ps [] (c ∷ cs)) later

abbrev quote : Piece
quote = text (b'"' ∷ [])

-- `"(?:level|severity)"\s*:\s*"(\w+)"`
unfoldable pub re_json_level : List Piece
unfolding is_white
re_json_level =
    quote
    ∷ either (codes "level") (codes "severity")
    ∷ quote
    ∷ run is_white
    ∷ text (codes ":")
    ∷ run is_white
    ∷ quote
    ∷ capture
    ∷ quote
    ∷ []

-- `\[(\w+)\]`
unfoldable pub re_bracketed : List Piece
re_bracketed = text (codes "[") ∷ capture ∷ text (codes "]") ∷ []

-- `^(?:[\d][\d\-T:.Z\s]*)?\s*(\w+)\s*:`
unfoldable pub re_prefixed : List Piece
unfolding is_digit is_stamp is_white
re_prefixed =
    maybe is_digit is_stamp ∷ run is_white ∷ capture ∷ run is_white ∷ text (codes ":") ∷ []

-- `^\s*\S+\s+(\w+)`
unfoldable pub re_first_word : List Piece
unfolding is_white
re_first_word =
    run is_white
    ∷ one (λ c. not (is_white c))
    ∷ run (λ c. not (is_white c))
    ∷ one is_white
    ∷ run is_white
    ∷ capture
    ∷ []

-- Equality of two words.
unfoldable pub same_word : List ℕ → List ℕ → Bool
same_word [] [] = true
same_word (a ∷ as') (b ∷ bs) = a == b && same_word as' bs
same_word _ _ = false

abbrev pub level_table : List (String × String)
level_table =
    ("error", "error")
    ∷ ("err", "error")
    ∷ ("critical", "error")
    ∷ ("fatal", "error")
    ∷ ("panic", "error")
    ∷ ("warn", "warn")
    ∷ ("warning", "warn")
    ∷ ("info", "info")
    ∷ ("information", "info")
    ∷ ("debug", "debug")
    ∷ ("dbg", "debug")
    ∷ ("trace", "debug")
    ∷ []

unfoldable pub lookup_word : List ℕ → List (String × String) → Option String
unfolding same_word
lookup_word w [] = none
lookup_word w ((k, v) ∷ m) = if same_word (codes k) w then some v else lookup_word w m

-- `levelNorm[strings.ToLower(m[1])]`
unfoldable pub level_norm : List ℕ → Option String
unfolding lookup_word lower
level_norm w = lookup_word (map lower w) level_table

unfoldable pub norm : Option (List ℕ) → Option String
unfolding level_norm
norm none = none
norm (some w) = level_norm w

unfoldable pub first_level : List (Option String) → String
first_level [] = "info"
first_level (some l ∷ os) = l
first_level (none ∷ os) = first_level os

unfoldable pub parse_level : Bytes → String
unfolding first_level norm
parse_level line =
    let cs = runes line in
    first_level (
      norm (search_from re_json_level cs)
      ∷ norm (search_from re_bracketed cs)
      ∷ norm (match_here re_prefixed [] cs)
      ∷ norm (match_here re_first_word [] cs)
      ∷ [])

-- Lines of parser_test.go.
level_code : Unit {0}
unfolding parse_level runes search_from re_json_level re_bracketed re_prefixed re_first_word
level_code = tt

parse_tests :
    (parse_level (codes "{\"level\": \"WARN\"}") ≡ "warn")
    × (parse_level (codes "app [Error] failed") ≡ "error")
    × (parse_level (codes "2024-01-01T10:00:00Z DEBUG: x") ≡ "debug")
    × (parse_level (codes "main fatal boom") ≡ "error")
    × (parse_level (codes "hello") ≡ "info")
unfolding level_code
parse_tests = (refl, refl, refl, refl, refl)
