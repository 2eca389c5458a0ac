-- ===== src/Base/Order.antt =====
-- The order of Go strings. On valid UTF-8 the order of the bytes is that of the code points.
use Prim.Native.Nat.{Ordering}
use Prim.Native.String.compare
use Prim.Native.String.{String, compare}
use mathlib.Core.Path.{◌≡◌, refl}
use mathlib.Core.Bool.{Bool, true, false}
use native.Mathlib.Omega.{arith}
use text.Mathlib.TextEquality.{Char-path}

-- `s < t`
abbrev pub str_ltb : String → String → Bool
str_ltb s t = elim (compare s t) [ Ordering.lt ↦ true | _ ↦ false ]

pub str_ltb_trans : (s t u : String) → str_ltb s t ≡ true → str_ltb t u ≡ true → str_ltb s u ≡ true
str_ltb_trans String.[] t String.[] p q =
    elim t
        as (λ v.
          str_ltb String.[] v ≡ true
          → str_ltb v String.[] ≡ true
          → str_ltb String.[] String.[] ≡ true) [
            | String.[] ↦ λ a b. a
            | String.◌∷◌ d v ↦ λ a b. ground (arith, compare.cons-nil d v)
          ]
      p q
str_ltb_trans String.[] t (String.◌∷◌ e u) p q = ground (arith, compare.nil-cons e u)
str_ltb_trans (String.◌∷◌ c s) String.[] u p q = ground (arith, compare.cons-nil c s)
str_ltb_trans (String.◌∷◌ c s) (String.◌∷◌ d t) String.[] p q = ground (arith, compare.cons-nil d t)
str_ltb_trans (String.◌∷◌ c s) (String.◌∷◌ d t) (String.◌∷◌ e u) p q = ground (
  arith,
  compare.cons-cons c d s t,
  compare.cons-cons d e t u,
  compare.cons-cons c e s u,
  str_ltb_trans s t u,
)

pub str_ltb_connected : (s t : String) → str_ltb s t ≡ false → str_ltb t s ≡ false → s ≡ t
str_ltb_connected String.[] String.[] p q = refl
str_ltb_connected String.[] (String.◌∷◌ d t) p q = ground (arith, compare.nil-cons d t)
str_ltb_connected (String.◌∷◌ c s) String.[] p q = ground (arith, compare.nil-cons c s)
str_ltb_connected (String.◌∷◌ c s) (String.◌∷◌ d t) p q = ground (
  arith,
  compare.cons-cons c d s t,
  compare.cons-cons d c t s,
  str_ltb_connected s t,
  Char-path c d,
)

pub str_ltb_asymm : (s t : String) → str_ltb s t ≡ true → str_ltb t s ≡ false
str_ltb_asymm s String.[] p =
    elim s as (λ v. str_ltb v String.[] ≡ true → str_ltb String.[] v ≡ false) [
      | String.[] ↦ λ a. refl
      | String.◌∷◌ c v ↦ λ a. ground (arith, compare.cons-nil c v)
    ]
      p
str_ltb_asymm String.[] (String.◌∷◌ d t) p = ground (arith, compare.cons-nil d t)
str_ltb_asymm (String.◌∷◌ c s) (String.◌∷◌ d t) p =
    ground (arith, compare.cons-cons c d s t, compare.cons-cons d c t s, str_ltb_asymm s t)
