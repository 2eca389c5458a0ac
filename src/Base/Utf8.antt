-- ===== src/Base/Utf8.antt =====
-- Go strings as bytes, where the program cuts them or walks through them: `range` over a string,
-- `strings.TrimSpace` and `regexp` decode UTF-8, and read an invalid byte as U+FFFD.
use Prim.Native.Nat.{ℕ, zero, suc, ◌+◌, ◌-◌, ◌*◌}
use mathlib.Core.Path.{◌≡◌, refl, ap}
use mathlib.Core.Bool.{Bool, true, ◌&&◌}
use mathlib.Core.List.{List, [], ◌∷◌, ◌++◌}
use theminidog.Base.Tests.{leb, ltb, ◌==◌, if◌then◌else◌}
use theminidog.Base.Lists.{All}
use theminidog.Base.Text.{is_space, codes}

abbrev pub Bytes : Type 0
Bytes = List ℕ

in_range : ℕ → ℕ → ℕ → Bool
in_range lo hi b = leb lo b && leb b hi

is_cont : ℕ → Bool
unfolding in_range
is_cont = in_range 0x80 0xbf

-- The first byte of an encoding narrows the second.
second_ok : ℕ → ℕ → Bool
unfolding is_cont in_range
second_ok a b =
    if a == 0xe0
    then in_range 0xa0 0xbf b
    else if a == 0xed
    then in_range 0x80 0x9f b
    else if a == 0xf0
    then in_range 0x90 0xbf b
    else if a == 0xf4
    then in_range 0x80 0x8f b
    else is_cont b

invalid : ℕ × ℕ
invalid = (0xfffd, 0)

two_bytes : ℕ → Bytes → ℕ × ℕ
unfolding invalid is_cont
two_bytes a [] = invalid
two_bytes a (b ∷ r) = if is_cont b then ((a - 0xc0) * 64 + (b - 0x80), 1) else invalid

three_bytes : ℕ → Bytes → ℕ × ℕ
unfolding invalid is_cont second_ok
three_bytes a (b ∷ c ∷ r) =
    if second_ok a b && is_cont c
    then ((a - 0xe0) * 4096 + (b - 0x80) * 64 + (c - 0x80), 2)
    else invalid
three_bytes a r = invalid

four_bytes : ℕ → Bytes → ℕ × ℕ
unfolding invalid is_cont second_ok
four_bytes a (b ∷ c ∷ d ∷ r) =
    if second_ok a b && (is_cont c && is_cont d)
    then ((a - 0xf0) * 262144 + (b - 0x80) * 4096 + (c - 0x80) * 64 + (d - 0x80), 3)
    else invalid
four_bytes a r = invalid

-- `utf8.DecodeRune`: the code point, and the number of further bytes that it takes.
unfoldable pub decode_rune : ℕ → Bytes → ℕ × ℕ
unfolding two_bytes three_bytes four_bytes in_range
decode_rune a r =
    if ltb a 0x80
    then (a, 0)
    else if in_range 0xc2 0xdf a
    then two_bytes a r
    else if in_range 0xe0 0xef a
    then three_bytes a r
    else if in_range 0xf0 0xf4 a
    then four_bytes a r
    else invalid

runes_skip : ℕ → Bytes → List ℕ
runes_skip skip [] = []
runes_skip (suc skip) (a ∷ r) = runes_skip skip r
runes_skip zero (a ∷ r) = let d = decode_rune a r in d.0 ∷ runes_skip d.1 r

unfoldable pub runes : Bytes → List ℕ
unfolding runes_skip decode_rune
runes s = runes_skip 0 s

abbrev pub IsAscii : Bytes → Type 0
IsAscii = All (λ a. ltb a 0x80 ≡ true)

pub runes-ascii : (xs ys : Bytes) → IsAscii xs → runes (xs ++ ys) ≡ xs ++ runes ys
unfolding runes runes_skip decode_rune
runes-ascii [] ys h = refl
runes-ascii (x ∷ xs) ys h = rw h.0 (ap (◌∷◌ x) (runes-ascii xs ys h.1))

all_space : List ℕ → Bool
all_space [] = true
all_space (c ∷ cs) = is_space c && all_space cs

-- `strings.TrimSpace(s) == ""`
unfoldable pub is_blank_bytes : Bytes → Bool
unfolding all_space is_space runes
is_blank_bytes s = all_space (runes s)

-- "é€", an ideographic space, and a stray continuation byte.
rune_tests :
    (runes (0xc3 ∷ 0xa9 ∷ 0xe2 ∷ 0x82 ∷ 0xac ∷ []) ≡ 0xe9 ∷ 0x20ac ∷ [])
    × (is_blank_bytes (0x20 ∷ 0xe3 ∷ 0x80 ∷ 0x80 ∷ []) ≡ true)
    × (runes (0x80 ∷ codes "a") ≡ 0xfffd ∷ codes "a")
unfolding runes is_blank_bytes
rune_tests = (refl, refl, refl)
