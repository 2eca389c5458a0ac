-- ===== src/Demo/Book.antt =====
-- The book that the demo application keeps in effect: the titles that were accepted, in order, the n-th under the number
-- n, each there until it is struck out.
use theminidog.Base.{
  ℕ, zero, suc, ◌+◌, ◌≤◌, ◌≡◌, refl, sym, ap, Option, none, some, List, [], ◌∷◌, ◌++◌, String, ℤ,
  pos, negsuc, int_eq, length, atoi, trim, str_eq, if◌then◌else◌, arith,
}
use theminidog.Demo.Store.{Task, with_id}
use theminidog.Demo.App.{
  Request, get_health, get_tasks, get_cpu, post_tasks, get_task, delete_task, get_slow,
  title_required, invalid_id, not_found, Body, health, no_body, failed, task, tasks, slow_done,
  cpu_done, Response,
}

abbrev pub Book : Type 0
Book = List (Option Task)

unfoldable pub line : ℕ → Book → Option Task
line n [] = none
line zero (x ∷ b) = x
line (suc n) (x ∷ b) = line n b

-- What is written under a number; the numbers begin at 1.
unfoldable pub entry : ℤ → Book → Option Task
unfolding line
entry (pos zero) b = none
entry (pos (suc n)) b = line n b
entry (negsuc n) b = none

strike_line : ℕ → Book → Book
strike_line n [] = []
strike_line zero (x ∷ b) = none ∷ b
strike_line (suc n) (x ∷ b) = x ∷ strike_line n b

unfoldable pub strike : ℤ → Book → Book
unfolding strike_line
strike (pos zero) b = b
strike (pos (suc n)) b = strike_line n b
strike (negsuc n) b = b

-- The task that a POST adds.
unfoldable pub accepted : String → Option String → Book → Option Task
accepted stamp none b = none
accepted stamp (some title) b =
    if str_eq (trim title) ""
    then none
    else some (record { id = pos (suc (length b)); title = trim title; created_at = stamp })

unfoldable pub add_task : Option Task → Book → Book
add_task none b = b
add_task (some t) b = b ++ some t ∷ []

unfoldable pub strike_if : Option ℤ → Book → Book
unfolding strike
strike_if none b = b
strike_if (some id) b = strike id b

-- The book after a request.
unfoldable pub turn : String → Request → Book → Book
unfolding accepted add_task strike_if
turn stamp (post_tasks title) b = add_task (accepted stamp title b) b
turn stamp (delete_task text) b = strike_if (atoi text) b
turn stamp get_health b = b
turn stamp get_tasks b = b
turn stamp get_cpu b = b
turn stamp (get_task text) b = b
turn stamp (get_slow k) b = b

abbrev pub answer : ℕ → Body → Response
answer status body = record { status = status; body = body }

abbrev pub one : Option Task → List Task
one none = []
one (some t) = t ∷ []

unfoldable pub post_answer : Option Task → Response
post_answer none = answer 400 (failed title_required)
post_answer (some t) = answer 201 (task t)

unfoldable pub get_answer : Book → Option ℤ → Response
get_answer b none = answer 400 (failed invalid_id)
get_answer b (some id) = elim (entry id b) [
  | none ↦ answer 404 (failed not_found)
  | some t ↦ answer 200 (task t)
]

unfoldable pub delete_answer : Book → Option ℤ → Response
delete_answer b none = answer 400 (failed invalid_id)
delete_answer b (some id) = elim (entry id b) [
  | none ↦ answer 404 (failed not_found)
  | some t ↦ answer 204 no_body
]

-- What the book makes the answer to a request be. The order of a listing is left open.
abbrev pub IsAnswer : String → Request → Book → Response → Type 0
IsAnswer stamp get_health b out = out ≡ answer 200 health
IsAnswer stamp get_cpu b out = out ≡ answer 200 (cpu_done 9_227_465)
IsAnswer stamp (get_slow k) b out = out ≡ answer 200 (slow_done (100 + k))
IsAnswer stamp (post_tasks title) b out = out ≡ post_answer (accepted stamp title b)
IsAnswer stamp (get_task text) b out = out ≡ get_answer b (atoi text)
IsAnswer stamp (delete_task text) b out = out ≡ delete_answer b (atoi text)
IsAnswer stamp get_tasks b out =
    (ts : List Task) × (out ≡ answer 200 (tasks ts)) × ((id : ℤ) → with_id id ts ≡ one (entry id b))

abbrev pub AreAnswers : List (String × Request) → Book → List Response → Type 0
AreAnswers [] b outs = outs ≡ []
AreAnswers ((stamp, r) ∷ rs) b [] = ⊥
AreAnswers ((stamp, r) ∷ rs) b (out ∷ outs) =
    IsAnswer stamp r b out × AreAnswers rs (turn stamp r b) outs

line-append :
    (n : ℕ) (b : Book) (x : Option Task)
    → line n (b ++ x ∷ []) ≡ (if int_eq (pos (suc (length b))) (pos (suc n)) then x else line n b)
unfolding line int_eq
line-append zero [] x = refl
line-append (suc n) [] x = ground arith
line-append zero (y ∷ b) x = ground arith
line-append (suc n) (y ∷ b) x = ground (arith, line-append n b x)

pub entry-append :
    (id : ℤ) (b : Book) (x : Option Task)
    → entry id (b ++ x ∷ []) ≡ (if int_eq (pos (suc (length b))) id then x else entry id b)
unfolding entry int_eq
entry-append (pos zero) b x = ground arith
entry-append (pos (suc n)) b x = line-append n b x
entry-append (negsuc n) b x = refl

pub line-beyond : (n : ℕ) (b : Book) → length b ≤ n → line n b ≡ none
unfolding line
line-beyond n [] h = elim n [ zero ↦ refl | suc k ↦ refl ]
line-beyond zero (x ∷ b) h = absurd (omega arith)
line-beyond (suc n) (x ∷ b) h = line-beyond n b (omega arith)

line-strike_line :
    (m n : ℕ) (b : Book)
    → line n (strike_line m b) ≡ (if int_eq (pos (suc m)) (pos (suc n)) then none else line n b)
unfolding line strike_line int_eq
line-strike_line m n [] = ground arith
line-strike_line zero zero (x ∷ b) = refl
line-strike_line zero (suc n) (x ∷ b) = ground arith
line-strike_line (suc m) zero (x ∷ b) = ground arith
line-strike_line (suc m) (suc n) (x ∷ b) = ground (arith, line-strike_line m n b)

pub entry-strike :
    (id j : ℤ) (b : Book) → entry j (strike id b) ≡ (if int_eq id j then none else entry j b)
unfolding entry strike int_eq
entry-strike (pos (suc m)) (pos (suc n)) b = line-strike_line m n b
entry-strike (pos zero) (pos zero) b = refl
entry-strike (pos zero) (pos (suc n)) b = ground arith
entry-strike (pos zero) (negsuc n) b = refl
entry-strike (pos (suc m)) (pos zero) b = ground arith
entry-strike (pos (suc m)) (negsuc n) b = refl
entry-strike (negsuc m) (pos zero) b = refl
entry-strike (negsuc m) (pos (suc n)) b = refl
entry-strike (negsuc m) (negsuc n) b = ground arith

length-strike_line : (n : ℕ) (b : Book) → length (strike_line n b) ≡ length b
unfolding strike_line
length-strike_line n [] = elim n [ zero ↦ refl | suc k ↦ refl ]
length-strike_line zero (x ∷ b) = refl
length-strike_line (suc n) (x ∷ b) = ap suc (length-strike_line n b)

pub length-strike : (id : ℤ) (b : Book) → length (strike id b) ≡ length b
unfolding strike
length-strike (pos zero) b = refl
length-strike (pos (suc n)) b = length-strike_line n b
length-strike (negsuc n) b = refl

-- What is not there need not be struck out.
strike_line_absent : (n : ℕ) (b : Book) → line n b ≡ none → strike_line n b ≡ b
unfolding line strike_line
strike_line_absent n [] h = elim n [ zero ↦ refl | suc k ↦ refl ]
strike_line_absent zero (x ∷ b) h = ap (λ y. y ∷ b) (sym h)
strike_line_absent (suc n) (x ∷ b) h = ap (◌∷◌ x) (strike_line_absent n b h)

pub strike_absent : (id : ℤ) (b : Book) → entry id b ≡ none → strike id b ≡ b
unfolding entry strike
strike_absent (pos zero) b h = refl
strike_absent (pos (suc n)) b h = strike_line_absent n b h
strike_absent (negsuc n) b h = refl
