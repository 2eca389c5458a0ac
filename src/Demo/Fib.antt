-- ===== src/Demo/Fib.antt =====
-- example/06-demo-app/app/main.go: `fib`, called with 35 only. An int of 64 bits holds its values up
-- to 92.
use theminidog.Base.{ℕ, zero, suc, ◌+◌, ◌-◌, ◌^◌, ◌≤◌, ◌<◌, ◌≡◌, refl, ◌∙◌, sym, subst, arith}

unfoldable pub fib : ℕ → ℕ
fib zero = 0
fib (suc zero) = 1
fib (suc (suc n)) = fib (suc n) + fib n

-- The loop that does what the two calls do: the number before, and the number.
unfoldable pub fib_pair : ℕ → ℕ × ℕ
fib_pair zero = (1, 0)
fib_pair (suc n) = let (before, here) = fib_pair n in (here, before + here)

fib_pair_lem : (n : ℕ) → fib_pair (suc n) ≡ (fib n, fib (suc n))
unfolding fib fib_pair
fib_pair_lem zero = refl
fib_pair_lem (suc n) = ground (arith, fib_pair_lem n)

-- The doubly recursive `fib` is the linear loop.
pub fib-pair : (n : ℕ) → fib n ≡ (fib_pair n).1
unfolding fib fib_pair
fib-pair zero = refl
fib-pair (suc n) = ground (arith, fib_pair_lem n)

-- What the endpoint answers.
pub fib_35 : fib 35 ≡ 9_227_465
fib_35 = fib-pair 35 ∙ unfold fib_pair in refl

fib-le-suc : (n : ℕ) → fib n ≤ fib (suc n)
unfolding fib
fib-le-suc zero = omega arith
fib-le-suc (suc n) = omega arith

fib_mono : (k n : ℕ) → fib n ≤ fib (k + n)
fib_mono zero n =
    let e : 0 + n ≡ n = omega arith in subst (λ m. fib n ≤ fib m) (sym e) (omega arith)
fib_mono (suc k) n =
    let e : suc k + n ≡ suc (k + n) = omega arith in
    subst (λ m. fib n ≤ fib m) (sym e) (omega (arith, fib_mono k n, fib-le-suc (k + n)))

-- No sum wraps.
pub fib_fits : (n : ℕ) → n ≤ 92 → fib n < 2 ^ 63
fib_fits n h =
    let top : fib 92 ≡ 7_540_113_804_746_346_429 = fib-pair 92 ∙ unfold fib_pair in refl in
    let e : 92 - n + n ≡ 92 = omega arith in
    omega (arith, subst (λ m. fib n ≤ fib m) e (fib_mono (92 - n) n), top)
