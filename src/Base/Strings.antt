-- ===== src/Base/Strings.antt =====
-- What the configuration uses of the package strings, and the length of a string in bytes.
use Prim.Native.Nat.{ℕ, ◌+◌}
use Prim.Native.Char.{Char, char, code}
use Prim.Native.String.{String, ◌++◌}
use mathlib.Core.Path.{◌≡◌, refl, ap, ◌∙◌}
use mathlib.Core.Bool.{Bool, true, false, ◌&&◌, ◌||◌}
use mathlib.Core.List.{List, [], ◌∷◌}
use native.Mathlib.Omega.{arith}
use text.Mathlib.TextLemmas.{cons-append, nil-append}
use theminidog.Base.Tests.{leb, ltb, ◌==◌, if◌then◌else◌}
use theminidog.Base.Lists.{All}
use theminidog.Base.Text.{is_space, str_eq}

unfoldable pub trim_left : String → String
trim_left String.[] = String.[]
trim_left (String.◌∷◌ c s) =
    let rest = trim_left s in if is_space (code c) then rest else String.◌∷◌ c s

-- A white space is dropped where nothing is left behind it.
unfoldable pub trim_right : String → String
trim_right String.[] = String.[]
trim_right (String.◌∷◌ c s) =
    let rest = trim_right s in if is_space (code c) && str_eq rest "" then "" else String.◌∷◌ c rest

-- `strings.TrimSpace`
unfoldable pub trim : String → String
unfolding trim_left trim_right
trim s = trim_right (trim_left s)

prepend : Char → List String → List String
prepend c [] = String.◌∷◌ c "" ∷ []
prepend c (s ∷ ss) = String.◌∷◌ c s ∷ ss

-- `strings.Split(s, ",")`
unfoldable pub split_commas : String → List String
unfolding prepend
split_commas String.[] = "" ∷ []
split_commas (String.◌∷◌ c s) =
    let rest = split_commas s in if code c == 44 then "" ∷ rest else prepend c rest

-- `strings.Join(ss, ",")`
unfoldable pub join_commas : List String → String
join_commas [] = ""
join_commas (s ∷ []) = s
join_commas (s ∷ t ∷ ts) = s ++ String.◌∷◌ (char 44 tt) (join_commas (t ∷ ts))

lower_code : ℕ → ℕ
lower_code c = if leb b'A' c && leb c b'Z' then c + 32 else c

-- `strings.ToLower(s) == w`, for a word of ASCII letters and digits without i and k, which are the
-- letters that it makes of other characters.
unfoldable pub lowers_to : String → String → Bool
unfolding lower_code
lowers_to String.[] String.[] = true
lowers_to String.[] (String.◌∷◌ d w) = false
lowers_to (String.◌∷◌ c s) String.[] = false
lowers_to (String.◌∷◌ c s) (String.◌∷◌ d w) = lower_code (code c) == code d && lowers_to s w

unfoldable pub byte_size : ℕ → ℕ
byte_size c = if ltb c 0x80 then 1 else if ltb c 0x800 then 2 else if ltb c 0x10000 then 3 else 4

-- `len`
unfoldable pub byte_length : String → ℕ
unfolding byte_size
byte_length String.[] = 0
byte_length (String.◌∷◌ c s) = byte_size (code c) + byte_length s

strings_tests :
    (trim " a b\t" ≡ "a b")
    × (split_commas "a,,b" ≡ "a" ∷ "" ∷ "b" ∷ [])
    × (lowers_to "WaRn" "warn" ≡ true)
    × (byte_length "aé" ≡ 3)
unfolding trim split_commas lowers_to byte_length is_space
strings_tests = (refl, refl, refl, refl)

unfoldable pub has_comma : String → Bool
has_comma String.[] = false
has_comma (String.◌∷◌ c s) = code c == 44 || has_comma s

abbrev pub IsPlain : String → Type 0
IsPlain s = has_comma s ≡ false

split_commas-plain : (s : String) → IsPlain s → split_commas s ≡ s ∷ []
unfolding split_commas prepend has_comma
split_commas-plain String.[] h = refl
split_commas-plain (String.◌∷◌ c s) h = ground (arith, h, split_commas-plain s)

split_commas-append :
    (s t : String) → IsPlain s → split_commas (s ++ String.◌∷◌ (char 44 tt) t) ≡ s ∷ split_commas t
unfolding split_commas prepend has_comma
split_commas-append String.[] t h = ap split_commas (nil-append (String.◌∷◌ (char 44 tt) t))
split_commas-append (String.◌∷◌ c s) t h =
    ap split_commas (cons-append c s (String.◌∷◌ (char 44 tt) t))
    ∙ ground (arith, h, split_commas-append s t)

pub split_commas-join_commas :
    (s : String) (ss : List String)
    → All IsPlain (s ∷ ss)
    → split_commas (join_commas (s ∷ ss)) ≡ s ∷ ss
unfolding join_commas
split_commas-join_commas s [] h = split_commas-plain s h.0
split_commas-join_commas s (t ∷ ts) h =
    split_commas-append s (join_commas (t ∷ ts)) h.0
    ∙ ap (◌∷◌ s) (split_commas-join_commas t ts h.1)
