-- ===== src/Base/Text.antt =====
-- Go strings. A string that the program only compares is a native text. `strings.TrimSpace` is
-- used almost only to ask whether a text is blank; `is_space` is `unicode.IsSpace`.
use Prim.Native.Nat.{ℕ, ◌<◌}
use Prim.Native.Char.{Char, char, code, nul, IsScalar}
use native.Mathlib.Omega.{arith}
use native.Mathlib.Decide.{dec_lt}
use Prim.Native.String.{String}
use Prim.Native.String.{◌++◌ as text_append}
use text.Mathlib.TextLemmas.{cons-append, nil-append}
use mathlib.Core.Path.{◌≡◌, refl, ap, ◌∙◌}
use mathlib.Core.Logic.{◌↔◌}
use mathlib.Core.Bool.{Bool, true, false, ◌&&◌, ◌||◌}
use mathlib.Core.List.{List, [], ◌∷◌, ◌++◌}
use text.Mathlib.Text.{◌==◌ as text_eq}
use text.Mathlib.TextEquality.{eq_iff}
use theminidog.Base.Lists.{All}
use theminidog.Base.Tests.{◌==◌, leb}

abbrev pub str_eq : String → String → Bool
str_eq = text_eq

pub str_eq_iff : (s t : String) → (str_eq s t ≡ true) ↔ (s ≡ t)
str_eq_iff = eq_iff

pub str_eq_refl : (s : String) → str_eq s s ≡ true
str_eq_refl s = (eq_iff s s).1 refl

-- The code points of White_Space.
unfoldable pub is_space : ℕ → Bool
is_space c =
    (leb 9 c && leb c 13)
    || c == 0x20
    || c == 0x85
    || c == 0xa0
    || c == 0x1680
    || (leb 0x2000 c && leb c 0x200a)
    || c == 0x2028
    || c == 0x2029
    || c == 0x202f
    || c == 0x205f
    || c == 0x3000

-- `strings.TrimSpace(s) == ""`
unfoldable pub is_blank : String → Bool
unfolding is_space
is_blank String.[] = true
is_blank (String.◌∷◌ c s) = is_space (code c) && is_blank s

-- `contains`: a text in a list of texts, as a key set or an allow list tests it.
unfoldable pub contains : String → List String → Bool
contains s [] = false
contains s (t ∷ ts) = str_eq t s || contains s ts

-- The code points of an ASCII text: its bytes.
abbrev pub codes : String → List ℕ
codes String.[] = []
codes (String.◌∷◌ c s) = code c ∷ codes s

blank_tests : (is_blank " \t" ≡ true) × (is_blank "" ≡ true) × (is_blank " a" ≡ false)
unfolding is_blank
blank_tests = (refl, refl, refl)

ascii-IsScalar : (n : ℕ) → n < 128 → IsScalar n
ascii-IsScalar n h = ground arith

ascii_char : (n : ℕ) → Dec (n < 128) → Char
unfolding ascii-IsScalar
ascii_char n (yes h) = char n (ascii-IsScalar n h)
ascii_char n (no h) = nul

-- The character of an ASCII code; NUL for any other number.
unfoldable pub to_char : ℕ → Char
unfolding ascii_char dec_lt
to_char n = ascii_char n (dec_lt n 128)

-- The text with these ASCII codes.
unfoldable pub of_codes : List ℕ → String
unfolding to_char
of_codes [] = ""
of_codes (c ∷ cs) = String.◌∷◌ (to_char c) (of_codes cs)

code-ascii_char : (n : ℕ) (d : Dec (n < 128)) → n < 128 → code (ascii_char n d) ≡ n
unfolding ascii_char
code-ascii_char n (yes p) h = refl
code-ascii_char n (no p) h = absurd (p h)

pub code-to_char : (n : ℕ) → n < 128 → code (to_char n) ≡ n
unfolding to_char
code-to_char n h = code-ascii_char n (dec_lt n 128) h

pub codes-of_codes : (cs : List ℕ) → All (λ c. c < 128) cs → codes (of_codes cs) ≡ cs
unfolding of_codes
codes-of_codes [] h = refl
codes-of_codes (c ∷ cs) h =
    ap (λ d. d ∷ codes (of_codes cs)) (code-to_char c h.0) ∙ ap (◌∷◌ c) (codes-of_codes cs h.1)

pub codes-append : (s t : String) → codes (text_append s t) ≡ codes s ++ codes t
codes-append String.[] t = ap codes (nil-append t)
codes-append (String.◌∷◌ c s) t =
    ap codes (cons-append c s t) ∙ ap (◌∷◌ (code c)) (codes-append s t)
