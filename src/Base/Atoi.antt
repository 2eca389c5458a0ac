-- ===== src/Base/Atoi.antt =====
-- `strconv.Atoi` and `strconv.ParseInt(s, 10, 64)`: a sign, decimal digits, and the range of an
-- int64; and `strconv.FormatInt(n, 10)` for a number that is not negative.
use Prim.Native.Nat.{ℕ, zero, suc, ◌+◌, ◌-◌, ◌*◌, ◌/◌, ◌%◌, ◌≤◌, ◌<◌}
use Prim.Native.Char.{Char, char, code}
use native.Mathlib.Omega.{arith}
use Prim.Native.String.{String}
use mathlib.Core.Path.{subst, ◌≡◌, refl, sym, ◌∙◌, ap}
use mathlib.Core.Bool.{false, ◌&&◌}
use mathlib.Core.Option.{Option, none, some}
use mathlib.Core.List.{List, [], ◌∷◌}
use theminidog.Base.Tests.{leb, ltb, ◌==◌, if◌then◌else◌, Bool-cases}
use mathlib.Core.Logic.{inl, inr}
use theminidog.Base.Int.{ℤ, pos, negsuc, sub_ℕ}
use theminidog.Base.Lists.{All}
use theminidog.Base.Text.{codes, str_eq, str_eq_iff}

digits : ℕ → List ℕ → Option ℕ
digits acc [] = some acc
digits acc (c ∷ cs) =
    let rest = digits (acc * 10 + (c - 48)) cs in if leb 48 c && leb c 57 then rest else none

-- At least one digit.
number : List ℕ → Option ℕ
unfolding digits
number [] = none
number (c ∷ cs) = digits 0 (c ∷ cs)

unsigned : Option ℕ → Option ℤ
unsigned none = none
unsigned (some n) = if leb n 9_223_372_036_854_775_807 then some (pos n) else none

negated : Option ℕ → Option ℤ
negated none = none
negated (some n) = if leb n 9_223_372_036_854_775_808 then some (sub_ℕ 0 n) else none

parse_codes : List ℕ → Option ℤ
unfolding number unsigned negated
parse_codes [] = none
parse_codes (c ∷ cs) =
    if c == 45
    then negated (number cs)
    else if c == 43
    then unsigned (number cs)
    else unsigned (number (c ∷ cs))

-- `none` for a syntax or a range error.
unfoldable pub atoi : String → Option ℤ
unfolding parse_codes
atoi s = parse_codes (codes s)

atoi_tests :
    (atoi "-12" ≡ some (negsuc 11))
    × (atoi "+7" ≡ some (pos 7))
    × (atoi "" ≡ none)
    × (atoi "9223372036854775808" ≡ none)
unfolding atoi
atoi_tests = (refl, refl, refl, refl)

digit : ℕ → Char
digit d =
    if d == 0
    then char 48 tt
    else if d == 1
    then char 49 tt
    else if d == 2
    then char 50 tt
    else if d == 3
    then char 51 tt
    else if d == 4
    then char 52 tt
    else if d == 5
    then char 53 tt
    else if d == 6
    then char 54 tt
    else if d == 7
    then char 55 tt
    else if d == 8
    then char 56 tt
    else char 57 tt

-- The digits of a number, in front of a text. The fuel is above the number.
decimal_from : ℕ → ℕ → String → String
unfolding digit
decimal_from zero n s = s
decimal_from (suc fuel) n s =
    let rest = decimal_from fuel (n / 10) (String.◌∷◌ (digit (n % 10)) s) in
    if ltb n 10 then String.◌∷◌ (digit n) s else rest

unfoldable pub decimal : ℕ → String
unfolding decimal_from
decimal n = decimal_from (suc n) n ""

code-digit : (d : ℕ) → d < 10 → code (digit d) ≡ 48 + d
unfolding digit
code-digit zero h = refl
code-digit (suc zero) h = refl
code-digit (suc (suc zero)) h = refl
code-digit (suc (suc (suc zero))) h = refl
code-digit (suc (suc (suc (suc zero)))) h = refl
code-digit (suc (suc (suc (suc (suc zero))))) h = refl
code-digit (suc (suc (suc (suc (suc (suc zero)))))) h = refl
code-digit (suc (suc (suc (suc (suc (suc (suc zero))))))) h = refl
code-digit (suc (suc (suc (suc (suc (suc (suc (suc zero)))))))) h = refl
code-digit (suc (suc (suc (suc (suc (suc (suc (suc (suc zero))))))))) h = refl
code-digit (suc (suc (suc (suc (suc (suc (suc (suc (suc (suc d)))))))))) h =
    absurd (omega (arith, h))

digits-decimal_from :
    (fuel n : ℕ) (s : String)
    → n < fuel
    → digits 0 (codes (decimal_from fuel n s)) ≡ digits n (codes s)
unfolding decimal_from digits
digits-decimal_from zero n s h = absurd (omega arith)
digits-decimal_from (suc fuel) n s h = elim (Bool-cases (ltb n 10)) [
  | inl small ↦ ground (arith, small, code-digit n)
  | inr big ↦
      let large : 10 ≤ n = ground (arith, big) in
      let rest =
        digits-decimal_from fuel (n / 10) (String.◌∷◌ (digit (n % 10)) s)
          (omega (arith, h, large)) in
      let whole : n / 10 * 10 + n % 10 ≡ n = omega arith in
      ground (arith, big, rest, code-digit (n % 10) (omega arith), whole)
]

-- The text begins with a digit.
abbrev BeginsWithDigit : String → Type 0
BeginsWithDigit s = (d : ℕ) × (t : String) × (d < 10) × (s ≡ String.◌∷◌ (digit d) t)

decimal_from-BeginsWithDigit :
    (fuel n : ℕ) (s : String) → n < fuel → BeginsWithDigit (decimal_from fuel n s)
unfolding decimal_from
decimal_from-BeginsWithDigit zero n s h = absurd (omega arith)
decimal_from-BeginsWithDigit (suc fuel) n s h = elim (Bool-cases (ltb n 10)) [
  | inl small ↦ (n, s, ground (arith, small), rw small refl)
  | inr big ↦
      let large : 10 ≤ n = ground (arith, big) in
      rw big (
        decimal_from-BeginsWithDigit fuel (n / 10) (String.◌∷◌ (digit (n % 10)) s)
          (omega (arith, h, large)))
]

parse_codes-digit :
    (d : ℕ) (cs : List ℕ)
    → d < 10
    → parse_codes ((48 + d) ∷ cs) ≡ unsigned (digits 0 ((48 + d) ∷ cs))
unfolding parse_codes number
parse_codes-digit d cs h = ground arith

-- An int64 that is not negative is read back from its decimal digits.
pub atoi-decimal : (n : ℕ) → n ≤ 9_223_372_036_854_775_807 → atoi (decimal n) ≡ some (pos n)
unfolding atoi decimal unsigned
atoi-decimal n h =
    let (d, t, small, begins) = decimal_from-BeginsWithDigit (suc n) n "" (omega arith) in
    let read = digits-decimal_from (suc n) n "" (omega arith) in
    let shape : codes (decimal n) ≡ (48 + d) ∷ codes t =
      ap codes begins ∙ ap (λ c. c ∷ codes t) (code-digit d small) in
    let value : digits 0 ((48 + d) ∷ codes t) ≡ some n =
      ap (digits 0) (sym shape) ∙ read ∙ unfold digits in refl in
    ap parse_codes shape ∙ parse_codes-digit d (codes t) small ∙ ap unsigned value ∙ ground arith

pub decimal-filled : (n : ℕ) → str_eq (decimal n) "" ≡ false
unfolding decimal
decimal-filled n = elim (Bool-cases (str_eq (decimal n) "")) [
  | inr filled ↦ filled
  | inl empty ↦
      let (d, t, small, begins) = decimal_from-BeginsWithDigit (suc n) n "" (omega arith) in
      let same : String.◌∷◌ (digit d) t ≡ "" = sym begins ∙ (str_eq_iff (decimal n) "").0 empty in
      let never : code (digit d) ∷ codes t ≡ [] = ap codes same in absurd (ground (arith, never))
]

decimal_tests : (decimal 0 ≡ "0") × (decimal 1024 ≡ "1024")
unfolding decimal
decimal_tests = (refl, refl)

-- What holds of every digit holds of the codes of a decimal.
module _ (P : ℕ → Type 0) (on_digit : (d : ℕ) → d < 10 → P (48 + d)) where
  decimal_from-All :
      (fuel n : ℕ) (s : String) → All P (codes s) → All P (codes (decimal_from fuel n s))
  unfolding decimal_from
  decimal_from-All zero n s h = h
  decimal_from-All (suc fuel) n s h = elim (Bool-cases (ltb n 10)) [
    | inl small ↦
        let below : n < 10 = ground (arith, small) in
        rw small (subst P (sym (code-digit n below)) (on_digit n below), h)
    | inr big ↦
        let below : n % 10 < 10 = omega arith in
        rw big (
          decimal_from-All fuel (n / 10) (String.◌∷◌ (digit (n % 10)) s)
            (subst P (sym (code-digit (n % 10) below)) (on_digit (n % 10) below), h))
  ]

  pub decimal-All_digits : (n : ℕ) → All P (codes (decimal n))
  unfolding decimal
  decimal-All_digits n = decimal_from-All (suc n) n "" tt

-- Decimal digits are ASCII.
pub decimal-All : (n : ℕ) → All (λ c. c < 128) (codes (decimal n))
decimal-All n = decimal-All_digits (λ c. c < 128) (λ d h. omega (arith, h)) n
