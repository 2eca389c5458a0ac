-- ===== src/Tests/Numbers.antt =====
-- Natural numbers in the place of float64, for the tests.
use theminidog.Base.{
  ℕ, ◌+◌, ◌*◌, ◌-◌, ◌/◌, ◌^◌, Floats, ltb, min, false, pos, pos_part, if◌then◌else◌, ◌==◌,
}

abbrev pub numbers : Floats
numbers = record {
  F = ℕ;
  add = λ a b. a + b;
  minus = λ a b. a - b;
  mul = λ a b. a * b;
  div = λ a b. a / b;
  pow2 = λ a. 2 ^ a;
  min_f = λ a b. min a b;
  of_int = pos_part;
  to_int = pos;
  lt = ltb;
  is_nan = λ a. false;
  is_inf = λ a. false;
  show = λ a. if a == 90 then "90" else "other";
}
