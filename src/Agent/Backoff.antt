-- ===== src/Agent/Backoff.antt =====
-- The waits between the attempts of internal/agent/sender/sender.go and
-- internal/agent/logtail/sender.go. A float64 is abstract; `r` is the random number of the attempt.
use theminidog.Base.{
  ℕ, zero, suc, ◌≡◌, Floats, Duration, pos, ltb_ℤ, if◌then◌else◌, ◌≤◌, ◌*◌, ◌^◌, min, false,
}

abbrev two_53 : ℕ
two_53 = 9_007_199_254_740_992

pub record BackoffConfig (F : Type 0) : Type 0 where
  pub base : Duration
  pub max : Duration
  pub jitter : F

module _ (fl : Floats) where
  open fl use {F, add, minus, mul, pow2, min_f, of_int, to_int}

  -- `DefaultBackoff`, with the float64 of 0.25.
  unfoldable pub default_backoff : F → BackoffConfig F
  default_backoff quarter = record {
    base = pos 1_000_000_000;
    max = pos 60_000_000_000;
    jitter = quarter;
  }

  -- The wait of an exponent, at most `Max`.
  unfoldable pub backoff : ℕ → BackoffConfig F → F → Duration
  backoff n cfg r =
      let exp = min_f (of_int cfg.max) (mul (of_int cfg.base) (pow2 (of_int (pos n)))) in
      let jitter =
        add (of_int (pos 1)) (mul cfg.jitter (minus (mul r (of_int (pos 2))) (of_int (pos 1)))) in
      let d = to_int (mul exp jitter) in if ltb_ℤ cfg.max d then cfg.max else d

  -- `waitFor`: the exponent is the attempt less one.
  unfoldable pub wait_for : ℕ → BackoffConfig F → F → Duration
  unfolding backoff
  wait_for zero cfg r = pos 0
  wait_for (suc n) cfg r = backoff n cfg r

  -- `logWaitFor`: the exponent is the attempt.
  unfoldable pub log_wait_for : ℕ → BackoffConfig F → F → Duration
  unfolding backoff
  log_wait_for zero cfg r = pos 0
  log_wait_for (suc n) cfg r = backoff (suc n) cfg r

  -- What IEEE 754 says of float64 on integers up to 2^53, of 0.5, and of a finite factor.
  pub record IsExact (half : F) : Type 0 where
    pub pow2_int : (n : ℕ) → 2 ^ n ≤ two_53 → pow2 (of_int (pos n)) ≡ of_int (pos (2 ^ n))
    pub mul_int :
        (a b : ℕ)
        → a ≤ two_53
        → b ≤ two_53
        → a * b ≤ two_53
        → mul (of_int (pos a)) (of_int (pos b)) ≡ of_int (pos (a * b))
    pub min_int :
        (a b : ℕ)
        → a ≤ two_53
        → b ≤ two_53
        → min_f (of_int (pos a)) (of_int (pos b)) ≡ of_int (pos (min a b))
    pub to_int_int : (a : ℕ) → a ≤ two_53 → to_int (of_int (pos a)) ≡ pos a
    pub centred : minus (mul half (of_int (pos 2))) (of_int (pos 1)) ≡ of_int (pos 0)
    pub unjittered :
        (j : F)
        → fl.is_nan j ≡ false
        → fl.is_inf j ≡ false
        → add (of_int (pos 1)) (mul j (of_int (pos 0))) ≡ of_int (pos 1)

  abbrev pub config : ℕ → ℕ → F → BackoffConfig F
  config base max jitter = record { base = pos base; max = pos max; jitter = jitter }
