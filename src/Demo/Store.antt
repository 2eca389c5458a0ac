-- ===== src/Demo/Store.antt =====
-- example/06-demo-app/app/main.go: the store of tasks. The map goes from identifiers to tasks, as
-- an association list, and `created_at` is the text of the clock. The mutex makes each method one
-- step.
use theminidog.Base.{
  ◌≡◌, refl, Bool, true, false, Option, none, some, List, [], ◌∷◌, ◌++◌, String, ℤ, pos, negsuc,
  ◌+ℤ◌, leb_ℤ, int_eq, if◌then◌else◌, arith, keep_if, int_eq_iff,
}

pub record Task : Type 0 where
  pub id : ℤ
  pub title : String
  pub created_at : String

abbrev pub Tasks : Type 0
Tasks = List (ℤ × Task)

pub record Store : Type 0 where
  pub tasks : Tasks
  pub counter : ℤ

unfoldable pub new_store : Store
new_store = record { tasks = []; counter = pos 0 }

-- `s.counter++` on an int of 64 bits.
unfoldable pub next_int : ℤ → ℤ
next_int n =
    if leb_ℤ (pos 9_223_372_036_854_775_807) n then negsuc 9_223_372_036_854_775_807 else n +ℤ pos 1

-- `s.tasks[id]`, `s.tasks[id] = t` and `delete(s.tasks, id)`.
unfoldable pub find : ℤ → Tasks → Option Task
find id [] = none
find id ((k, t) ∷ m) = if int_eq k id then some t else find id m

unfoldable pub put : ℤ → Task → Tasks → Tasks
put id t [] = (id, t) ∷ []
put id t ((k, u) ∷ m) = if int_eq k id then (k, t) ∷ m else (k, u) ∷ put id t m

unfoldable pub remove : ℤ → Tasks → Tasks
remove id [] = []
remove id ((k, u) ∷ m) = if int_eq k id then remove id m else (k, u) ∷ remove id m

unfoldable pub create : String → String → Store → Store × Task
unfolding next_int put
create created_at title s =
    let id = next_int s.counter in
    let t : Task = record { id = id; title = title; created_at = created_at } in
    (record { tasks = put id t s.tasks; counter = id }, t)

unfoldable pub values : Tasks → List Task
values [] = []
values ((k, t) ∷ m) = t ∷ values m

unfoldable pub list : Store → List Task
unfolding values
list s = values s.tasks

unfoldable pub get : ℤ → Store → Option Task
unfolding find
get id s = find id s.tasks

unfoldable pub delete : ℤ → Store → Store × Bool
unfolding find remove
delete id s = elim (find id s.tasks) [
  | none ↦ (s, false)
  | some t ↦ (record s { tasks = remove id s.tasks }, true)
]

-- Every task is under its own identifier.
abbrev pub IsKeyed : Tasks → Type 0
IsKeyed [] = Unit
IsKeyed ((k, t) ∷ m) = (t.id ≡ k) × IsKeyed m

-- The tasks of a list with an identifier.
abbrev pub with_id : ℤ → List Task → List Task
with_id id = keep_if (λ (t : Task). int_eq t.id id)

pub find-put :
    (id j : ℤ) (t : Task) (m : Tasks)
    → find j (put id t m) ≡ (if int_eq id j then some t else find j m)
unfolding find put
find-put id j t [] = refl
find-put id j t ((k, u) ∷ m) =
    ground (arith, int_eq_iff k id, int_eq_iff k j, int_eq_iff id j, find-put id j t m)

pub find-remove :
    (id j : ℤ) (m : Tasks) → find j (remove id m) ≡ (if int_eq id j then none else find j m)
unfolding find remove
find-remove id j [] = ground arith
find-remove id j ((k, u) ∷ m) =
    ground (arith, int_eq_iff k id, int_eq_iff k j, int_eq_iff id j, find-remove id j m)

pub put-IsKeyed : (id : ℤ) (t : Task) (m : Tasks) → t.id ≡ id → IsKeyed m → IsKeyed (put id t m)
unfolding put
put-IsKeyed id t [] e h = (e, tt)
put-IsKeyed id t ((k, u) ∷ m) e h = ground (arith, int_eq_iff k id, put-IsKeyed id t m e h.1)

pub remove-IsKeyed : (id : ℤ) (m : Tasks) → IsKeyed m → IsKeyed (remove id m)
unfolding remove
remove-IsKeyed id [] h = tt
remove-IsKeyed id ((k, u) ∷ m) h = ground (arith, remove-IsKeyed id m h.1)

-- A new task comes behind the others.
pub with_id-put :
    (id j : ℤ) (t : Task) (m : Tasks)
    → t.id ≡ id
    → find id m ≡ none
    → with_id j (values (put id t m)) ≡ with_id j (values m) ++ (if int_eq id j then t ∷ [] else [])
unfolding find put values
with_id-put id j t [] e h = ground (arith, e)
with_id-put id j t ((k, u) ∷ m) e h =
    ground (arith, e, h, int_eq_iff id j, int_eq_iff u.id j, with_id-put id j t m e)

pub with_id-remove :
    (id j : ℤ) (m : Tasks)
    → IsKeyed m
    → with_id j (values (remove id m)) ≡ (if int_eq id j then [] else with_id j (values m))
unfolding remove values
with_id-remove id j [] h = ground arith
with_id-remove id j ((k, u) ∷ m) h = ground (
  arith,
  h.0,
  int_eq_iff u.id j,
  int_eq_iff k id,
  int_eq_iff k j,
  int_eq_iff id j,
  with_id-remove id j m h.1,
)
