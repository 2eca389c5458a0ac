-- ===== src/Base/Clock.antt =====
-- `time.Time` and `time.Duration`: nanoseconds as integers. A time counts from the zero time of
-- Go (1 January of year 1, UTC), which is `pos 0`; a duration is an int64.
use Prim.Native.Nat.{ℕ, ◌*◌}
use mathlib.Core.Path.{◌≡◌}
use mathlib.Core.Bool.{Bool}
use native.Mathlib.Omega.{arith}
use theminidog.Base.Tests.{if◌then◌else◌}
use theminidog.Base.Int.{ℤ, pos, negsuc, ◌-ℤ◌, ◌≤ℤ◌, ltb_ℤ, leb_ℤ, eqb_ℤ, -ℤ_parts}

abbrev pub Time : Type 0
Time = ℤ

abbrev pub Duration : Type 0
Duration = ℤ

abbrev pub max_duration : Duration
max_duration = pos 9_223_372_036_854_775_807

abbrev pub min_duration : Duration
min_duration = negsuc 9_223_372_036_854_775_807

abbrev pub seconds : ℕ → Duration
seconds n = pos (n * 1_000_000_000)

-- `t.IsZero()`
abbrev pub is_zero : Time → Bool
is_zero t = eqb_ℤ t (pos 0)

-- A difference held to the range of an int64.
abbrev saturate : ℤ → Duration
saturate d =
    if ltb_ℤ d min_duration then min_duration else if ltb_ℤ max_duration d then max_duration else d

-- `t.Sub(u)` saturates.
unfoldable pub sub : Time → Time → Duration
sub t u = saturate (t -ℤ u)

-- Against a threshold that is a positive int64 the saturation does not show.
pub leb-sub :
    (d : Duration) (t u : Time)
    → pos 0 ≤ℤ d
    → d ≤ℤ max_duration
    → leb_ℤ d (sub t u) ≡ leb_ℤ d (t -ℤ u)
unfolding sub
leb-sub d t u l h = ground (arith, -ℤ_parts t u)
