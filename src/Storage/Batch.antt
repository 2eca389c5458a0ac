-- ===== src/Storage/Batch.antt =====
-- The loops of internal/server/storage/metrics.go and logs.go that run a pgx batch. `exec i` says
-- whether the i-th statement of the batch succeeds; the result is the number returned and whether
-- an error comes with it.
use theminidog.Base.{
  ℕ, zero, suc, ◌+◌, ◌≤◌, ◌<◌, ◌≡◌, refl, Bool, true, false, ◌⊎◌, inl, inr, arith, Bool-cases,
}

unfoldable pub exec_from : (ℕ → Bool) → ℕ → ℕ → ℕ × Bool
exec_from exec i zero = (i, false)
exec_from exec i (suc left) =
    let rest = exec_from exec (suc i) left in elim (exec i) [ true ↦ rest | false ↦ (i, true) ]

-- The first statement that fails ends the loop, and there is none where no error is returned.
abbrev pub IsOutcome : (ℕ → Bool) → ℕ → ℕ → ℕ × Bool → Type 0
IsOutcome exec i n r =
    ((j : ℕ) → i ≤ j → j < r.0 → exec j ≡ true)
    × (((r.1 ≡ false) × (r.0 ≡ i + n)) ⊎ ((r.1 ≡ true) × (r.0 < i + n) × (exec r.0 ≡ false)))

pub exec_from_lem : (exec : ℕ → Bool) (i n : ℕ) → IsOutcome exec i n (exec_from exec i n)
unfolding exec_from
exec_from_lem exec i zero = ((λ j l h. absurd (omega arith)), inl (refl, omega arith))
exec_from_lem exec i (suc n) = elim (Bool-cases (exec i)) [
  | inl e ↦
      let (before, out) = exec_from_lem exec (suc i) n in
      rw (e, exec_from)
        (
          (λ j l h. elim (Bool-cases (exec j)) [ inl e' ↦ e' | inr e' ↦ ground (arith, before j) ]),
          ground arith,
        )
  | inr e ↦ rw (e, exec_from) ((λ j l h. absurd (omega arith)), inr (refl, omega arith, e))
]
