-- ===== src/Storage/Logs/Positions.antt =====
-- Rows of a list by their position, and lists whose ids fall.
use theminidog.Base.{
  ℕ, zero, suc, ◌+◌, ◌≤◌, ◌<◌, ◌≡◌, refl, ap, Bool, some, List, [], ◌∷◌, ℤ, pos, length, arith,
  Bool-cases, inl, inr, take, keep_if, All, ◌<ℤ◌, drop,
}
use theminidog.Storage.Logs.{LogRow, id_at}
use theminidog.Storage.Logs.Answers.{below, Descending}

-- Rows by position.
pub id_at-take : (n m : ℕ) (l : List LogRow) → n < m → id_at n (take m l) ≡ id_at n l
unfolding id_at
id_at-take n zero l h = absurd (omega arith)
id_at-take n (suc m) [] h = refl
id_at-take zero (suc m) (r ∷ l) h = refl
id_at-take (suc n) (suc m) (r ∷ l) h = id_at-take n m l (omega arith)

pub id_at-drop : (k n : ℕ) (l : List LogRow) → id_at n (drop k l) ≡ id_at (k + n) l
unfolding id_at
id_at-drop zero n l = ap (λ m. id_at m l) (omega arith)
id_at-drop (suc k) n [] = ground arith
id_at-drop (suc k) n (r ∷ l) =
    let e : suc k + n ≡ suc (k + n) = omega arith in rw e (id_at-drop k n l)

-- In a falling list the rows below the id at a position are those behind it.
keep_if-All :
    (c : ℤ) (l : List LogRow) → pos 0 <ℤ c → All (λ s. s.id <ℤ c) l → keep_if (below c) l ≡ l
unfolding below
keep_if-All c [] p a = refl
keep_if-All c (r ∷ l) p a = ground (arith, keep_if-All c l p a.1)

id_at-lt :
    (c d : ℤ) (n : ℕ) (l : List LogRow) → All (λ s. s.id <ℤ d) l → id_at n l ≡ some c → c <ℤ d
unfolding id_at
id_at-lt c d n [] a e = cc
id_at-lt c d zero (r ∷ l) a e = ground arith
id_at-lt c d (suc n) (r ∷ l) a e = id_at-lt c d n l a.1 e

pub keep_if-drop :
    (n : ℕ) (l : List LogRow)
    → Descending l
    → n < length l
    → (c : ℤ) × (id_at n l ≡ some c) × (pos 0 <ℤ c) × (keep_if (below c) l ≡ drop (suc n) l)
unfolding id_at below
keep_if-drop n [] d h = absurd (omega arith)
keep_if-drop zero (r ∷ l) d h = (r.id, refl, d.0, ground (arith, keep_if-All r.id l d.0 d.1))
keep_if-drop (suc n) (r ∷ l) d h =
    let (c, e, p, k) = keep_if-drop n l d.2 (omega arith) in
    (c, e, p, ground (arith, k, id_at-lt c r.id n l d.1 e))

All-keep_if {ℓ κ} :
    {A : Type ℓ} (P : A → Type κ) (q : A → Bool) (l : List A) → All P l → All P (keep_if q l)
All-keep_if P q [] h = tt
All-keep_if P q (x ∷ l) h = elim (Bool-cases (q x)) [
  | inl e ↦ rw e (h.0, All-keep_if P q l h.1)
  | inr e ↦ rw e (All-keep_if P q l h.1)
]

pub keep_if-Descending :
    (q : LogRow → Bool) (l : List LogRow) → Descending l → Descending (keep_if q l)
keep_if-Descending q [] d = tt
keep_if-Descending q (r ∷ l) d = elim (Bool-cases (q r)) [
  | inl e ↦ rw e (d.0, All-keep_if (λ s. s.id <ℤ r.id) q l d.1, keep_if-Descending q l d.2)
  | inr e ↦ rw e (keep_if-Descending q l d.2)
]

pub drop-Descending : (k : ℕ) (l : List LogRow) → Descending l → Descending (drop k l)
drop-Descending zero l d = d
drop-Descending (suc k) [] d = tt
drop-Descending (suc k) (r ∷ l) d = drop-Descending k l d.2

pub length-keep_if {ℓ} : {A : Type ℓ} (q : A → Bool) (l : List A) → length (keep_if q l) ≤ length l
length-keep_if q [] = omega arith
length-keep_if q (x ∷ l) = ground (arith, length-keep_if q l)

pub length-zero {ℓ} : {A : Type ℓ} (l : List A) → length l ≤ 0 → l ≡ []
length-zero [] h = refl
length-zero (x ∷ l) h = absurd (omega arith)

pub below_zero : (l : List LogRow) → keep_if (below (pos 0)) l ≡ l
unfolding below
below_zero [] = refl
below_zero (r ∷ l) = ap (◌∷◌ r) (below_zero l)
